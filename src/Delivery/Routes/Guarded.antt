-- ===== src/Delivery/Routes/Guarded.antt =====
-- What the routes refuse.
use aegisclaims_ai.Prelude.{Option, String, refl, ℕ, ◌≡◌}
use aegisclaims_ai.Delivery.Routes.{
  Response, Services, cancel_workflow, create_brief, document_detail, get_brief, get_workflow,
  grounded_question, latest_brief, latest_workflow, list_claims, retry_document, retry_workflow,
  review_workflow, search_evidence, start_workflow, upload_document, workflow_history,
}
use aegisclaims_ai.Delivery.Routes.Overview.{claim_workspace, dashboard, operations, reviews}
use aegisclaims_ai.Delivery.Types.{App, Handler, forbidden, permit, status_of}
use aegisclaims_ai.Documents.Upload.{Bytes}
use aegisclaims_ai.Domain.{
  Action, Actor, brief_create, brief_read, claim_read, dashboard_read, document_read,
  document_upload, operations_read, retrieval_query, review_queue_read, workflow_cancel,
  workflow_read, workflow_retry, workflow_review, workflow_start,
}
use aegisclaims_ai.Prelude.Exec.{continue, err}
use aegisclaims_ai.Retrieval.Chunking.{Text}
use aegisclaims_ai.Security.Authorization.{authorize, not_permitted}
use aegisclaims_ai.Store.{ReviewAction}

-- A request that has been routed and parsed.
pub data Route : Type 0 where
  dashboard_route operations_route : Route
  list_claims_route reviews_route : ℕ → ℕ → Route
  claim_workspace_route : ℕ → Route
  upload_document_route : ℕ → Text → Option String → Bytes → Route
  document_detail_route retry_document_route : ℕ → Route
  search_evidence_route grounded_question_route : ℕ → String → ℕ → Route
  create_brief_route : ℕ → String → String → Route
  latest_brief_route get_brief_route : ℕ → Route
  start_workflow_route : ℕ → String → String → Route
  latest_workflow_route get_workflow_route workflow_history_route cancel_workflow_route : ℕ → Route
  review_workflow_route : ℕ → ReviewAction → String → ℕ → String → Route
  retry_workflow_route : ℕ → String → Route

-- The route's handler.
unfoldable pub handle : Services → Actor → Route → Handler Response
handle sv actor dashboard_route = dashboard sv actor
handle sv actor operations_route = operations sv actor
handle sv actor (reviews_route limit offset) = reviews sv actor limit offset
handle sv actor (claim_workspace_route claim) = claim_workspace sv actor claim
handle sv actor (list_claims_route limit offset) = list_claims sv actor limit offset
handle sv actor (upload_document_route claim filename mime content) =
    upload_document sv actor claim filename mime content
handle sv actor (document_detail_route id) = document_detail sv actor id
handle sv actor (retry_document_route id) = retry_document sv actor id
handle sv actor (search_evidence_route claim question limit) =
    search_evidence sv actor claim question limit
handle sv actor (grounded_question_route claim question limit) =
    grounded_question sv actor claim question limit
handle sv actor (create_brief_route claim task key) = create_brief sv actor claim task key
handle sv actor (latest_brief_route claim) = latest_brief sv actor claim
handle sv actor (get_brief_route id) = get_brief sv actor id
handle sv actor (start_workflow_route claim task key) = start_workflow sv actor claim task key
handle sv actor (latest_workflow_route claim) = latest_workflow sv actor claim
handle sv actor (get_workflow_route id) = get_workflow sv actor id
handle sv actor (workflow_history_route id) = workflow_history sv actor id
handle sv actor (cancel_workflow_route id) = cancel_workflow sv actor id
handle sv actor (review_workflow_route id action reason version key) =
    review_workflow sv actor id action reason version key
handle sv actor (retry_workflow_route id key) = retry_workflow sv actor id key

-- The action that a route stands for.
unfoldable pub action_of : Route → Action
action_of dashboard_route = dashboard_read
action_of operations_route = operations_read
action_of (reviews_route limit offset) = review_queue_read
action_of (claim_workspace_route claim) = claim_read
action_of (list_claims_route limit offset) = claim_read
action_of (upload_document_route c name mime content) = document_upload
action_of (document_detail_route d) = document_read
action_of (retry_document_route d) = document_upload
action_of (search_evidence_route c question limit) = retrieval_query
action_of (grounded_question_route c question limit) = retrieval_query
action_of (create_brief_route c task key) = brief_create
action_of (latest_brief_route c) = brief_read
action_of (get_brief_route b) = brief_read
action_of (start_workflow_route c task key) = workflow_start
action_of (latest_workflow_route c) = workflow_read
action_of (get_workflow_route w) = workflow_read
action_of (workflow_history_route w) = workflow_read
action_of (cancel_workflow_route w) = workflow_cancel
action_of (review_workflow_route w action reason version key) = workflow_review
action_of (retry_workflow_route w key) = workflow_retry

pub permit-forbidden :
    (actor : Actor) (action : Action) (app : App)
    → authorize actor action ≡ err (not_permitted action)
    → permit actor action app ≡ (err (forbidden action), app)
unfolding permit
permit-forbidden actor action app h = rw (h, permit) refl

-- What follows a refused permission does not run.
pub refused :
    {A : Type 0} (actor : Actor) (action : Action) (app : App) (f : Unit {0} → Handler A)
    → authorize actor action ≡ err (not_permitted action)
    → continue (permit actor action app).0 f (permit actor action app).1
      ≡ (err (forbidden action), app)
refused actor action app f h = rw (permit-forbidden actor action app h) refl

-- An actor without the permission for a route's action gets it refused with the status 403, and
-- neither the tables nor the counters of the rate limiter change.
pub handle-forbidden :
    (sv : Services) (actor : Actor) (route : Route) (app : App)
    → authorize actor (action_of route) ≡ err (not_permitted (action_of route))
    → (handle sv actor route app ≡ (err (forbidden (action_of route)), app))
      × (status_of (forbidden (action_of route)) ≡ 403)
unfolding handle action_of status_of dashboard operations reviews claim_workspace list_claims
    upload_document document_detail retry_document search_evidence grounded_question create_brief
    latest_brief get_brief start_workflow latest_workflow get_workflow workflow_history
    cancel_workflow review_workflow retry_workflow
handle-forbidden sv actor dashboard_route app h = (refused actor dashboard_read app _ h, refl)
handle-forbidden sv actor operations_route app h = (refused actor operations_read app _ h, refl)
handle-forbidden sv actor (reviews_route limit offset) app h =
    (refused actor review_queue_read app _ h, refl)
handle-forbidden sv actor (claim_workspace_route claim) app h =
    (refused actor claim_read app _ h, refl)
handle-forbidden sv actor (list_claims_route limit offset) app h =
    (refused actor claim_read app _ h, refl)
handle-forbidden sv actor (upload_document_route claim filename mime content) app h =
    (refused actor document_upload app _ h, refl)
handle-forbidden sv actor (document_detail_route id) app h =
    (refused actor document_read app _ h, refl)
handle-forbidden sv actor (retry_document_route id) app h =
    (refused actor document_upload app _ h, refl)
handle-forbidden sv actor (search_evidence_route claim question limit) app h =
    (refused actor retrieval_query app _ h, refl)
handle-forbidden sv actor (grounded_question_route claim question limit) app h =
    (refused actor retrieval_query app _ h, refl)
handle-forbidden sv actor (create_brief_route claim task key) app h =
    (refused actor brief_create app _ h, refl)
handle-forbidden sv actor (latest_brief_route claim) app h =
    (refused actor brief_read app _ h, refl)
handle-forbidden sv actor (get_brief_route id) app h = (refused actor brief_read app _ h, refl)
handle-forbidden sv actor (start_workflow_route claim task key) app h =
    (refused actor workflow_start app _ h, refl)
handle-forbidden sv actor (latest_workflow_route claim) app h =
    (refused actor workflow_read app _ h, refl)
handle-forbidden sv actor (get_workflow_route id) app h =
    (refused actor workflow_read app _ h, refl)
handle-forbidden sv actor (workflow_history_route id) app h =
    (refused actor workflow_read app _ h, refl)
handle-forbidden sv actor (cancel_workflow_route id) app h =
    (refused actor workflow_cancel app _ h, refl)
handle-forbidden sv actor (review_workflow_route id action reason version key) app h =
    (refused actor workflow_review app _ h, refl)
handle-forbidden sv actor (retry_workflow_route id key) app h =
    (refused actor workflow_retry app _ h, refl)
