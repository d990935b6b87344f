-- ===== src/Delivery/Routes.antt =====
-- delivery/routes.py: the routes on claims, documents, questions, briefs and workflows. The
-- background services are the fields of `Services`.
use aegisclaims_ai.Workflow.Service.Operations
use aegisclaims_ai.ModelAssistance.Service
use aegisclaims_ai.Application
pub mod Guarded
pub mod Overview
use Prim.Native.String.{◌++◌ as concat}
use aegisclaims_ai.Prelude.{List, Option, String, none, some, ℕ}
use aegisclaims_ai.Application.{
  ClaimSummaryView, ClaimWorkspaceView, DashboardView, DocumentDetailView, ReviewTaskView,
}
use aegisclaims_ai.Delivery.Types.{
  ApiError, App, Handler, Limiter, append_audit, call, conflict, enforce_limit, internal,
  invalid_document, not_found, permit,
}
use aegisclaims_ai.Documents.Ingestion.{
  IngestionError, Processor, document_lost, duplicate_document, storage_failed,
}
use aegisclaims_ai.Documents.Processing.{ingest, process}
use aegisclaims_ai.Documents.Upload.{Bytes, Library}
use aegisclaims_ai.Domain.{
  Actor, brief_create, brief_read, claim_read, document_read, document_upload, retrieval_query,
  workflow_cancel, workflow_read, workflow_retry, workflow_review, workflow_start,
}
use aegisclaims_ai.ModelAssistance.Creation.{create}
use aegisclaims_ai.ModelAssistance.Service.{
  BriefEnv, BriefError, BriefLimits, ClaimEvidenceBriefView, brief_not_found, generation_rejected,
  invocation_missing, retrieval_failed, task_conflict, unknown_citation,
}
use aegisclaims_ai.ModelAssistance.Types.{ModelLibrary, ModelProvider}
use aegisclaims_ai.Prelude.Exec.{Exec, gets, or_raise, pure, ◌>>=◌, ◌>>◌}
use aegisclaims_ai.Prelude.Python.{Python}
use aegisclaims_ai.Retrieval.Answering.{Retrieve, answer}
use aegisclaims_ai.Retrieval.Chunking.{Text}
use aegisclaims_ai.Retrieval.Types.{
  AnswerState, GroundedExecution, RetrievalError, RetrievalExecution, embedding_failed,
}
use aegisclaims_ai.Store.{
  AuditEvent, Document, Env, ReviewAction, Session, WorkflowEvent, WorkflowRun,
}
use aegisclaims_ai.Store.Claims.{get_document}
use aegisclaims_ai.Store.Reviews.{OperationsCounts}
use aegisclaims_ai.Workflow.Service.{WorkflowError, node_failure, workflow_not_found}
use aegisclaims_ai.Workflow.Service.Actions.{cancel, retry, submit_review}
use aegisclaims_ai.Workflow.Service.Operations.{WorkflowView, history, start, viewed}

-- What the application holds, and what one request reads of its surroundings.
pub record Services : Type 0 where
  pub py : Python
  pub retrieve : Retrieve
  pub extract : String → List String → String
  pub library : ModelLibrary
  pub provider : ModelProvider
  pub limits : BriefLimits
  pub upload_library : Library
  pub processor : Processor
  pub limiter : Limiter
  pub window : ℕ
  pub upload_rate_limit : ℕ
  pub retrieval_rate_limit : ℕ
  pub model_rate_limit : ℕ
  pub number_text : ℕ → String
  pub env : Env
  pub brief_env : BriefEnv
  pub document_id : ℕ
  pub correlation_id : String

-- The value that is serialised.
pub data Response : Type 0 where
  claim_list : List ClaimSummaryView → Response
  document_view : Document → Response
  document_detail_view : DocumentDetailView → Response
  dashboard_view : DashboardView → Response
  claim_workspace_view : ClaimWorkspaceView → Response
  review_queue_view : List ReviewTaskView → Response
  operations_view : OperationsCounts → Response
  evidence_view : RetrievalExecution → Response
  answer_view : GroundedExecution → Response
  brief_view : ClaimEvidenceBriefView → Response
  latest_brief_view : Option ClaimEvidenceBriefView → Response
  workflow_view : WorkflowView → Response
  latest_workflow_view : Option WorkflowView → Response
  history_view : List WorkflowEvent → Response

-- The `except` clauses.
abbrev pub workflow_problem : WorkflowError → ApiError
workflow_problem workflow_not_found = not_found
workflow_problem (node_failure e) = internal
workflow_problem _ = conflict

abbrev pub brief_problem : BriefError → ApiError
brief_problem brief_not_found = not_found
brief_problem task_conflict = conflict
brief_problem generation_rejected = conflict
brief_problem unknown_citation = internal
brief_problem invocation_missing = internal
brief_problem (retrieval_failed e) = internal

abbrev pub retrieval_problem : RetrievalError → ApiError
retrieval_problem RetrievalError.claim_not_found = not_found
retrieval_problem RetrievalError.document_not_found = not_found
retrieval_problem (embedding_failed e) = internal

abbrev pub ingestion_problem : IngestionError → ApiError
ingestion_problem IngestionError.claim_not_found = not_found
ingestion_problem IngestionError.document_not_found = not_found
ingestion_problem document_lost = internal
ingestion_problem (IngestionError.rejected r) = invalid_document
ingestion_problem (duplicate_document d) = conflict
ingestion_problem (storage_failed e) = internal

-- `retry_document` has no `except` clause.
abbrev pub unhandled_problem : IngestionError → ApiError
unhandled_problem e = internal

abbrev pub answer_outcome : AnswerState → String
answer_outcome AnswerState.insufficient_evidence = "abstained"
answer_outcome _ = "success"

abbrev pub session_gets : {A : Type 0} → (Session → A) → Handler A
session_gets f = gets (λ (app : App). f app.session)

module _ (sv : Services) (actor : Actor) where
  -- `f"{actor.tenant_id}:{actor.user_id}"`
  abbrev pub limit_subject : String
  limit_subject =
      concat (sv.number_text actor.tenant_id) (concat ":" (sv.number_text actor.user_id))

  abbrev pub limited : String → ℕ → Handler (Unit {0})
  limited scope limit =
      enforce_limit sv.py sv.limiter sv.env.now sv.window scope limit_subject limit

  abbrev pub claim_audit : String → ℕ → String → AuditEvent
  claim_audit action claim outcome = record {
    tenant_id = actor.tenant_id;
    actor_user_id = some actor.user_id;
    action = action;
    resource_type = "claim";
    resource_id = claim;
    outcome = outcome;
    correlation_id = sv.correlation_id;
  }

  -- `assert detail is not None`, and `detail.document`
  abbrev pub shown_document : ℕ → Handler Response
  shown_document id = do
    found ← session_gets (λ s. Application.document_detail s.db id actor)
    detail ← or_raise found internal
    pure (document_view detail.document)

  -- `workflow_or_not_found`
  abbrev pub workflow_or_not_found : ℕ → Handler WorkflowRun
  workflow_or_not_found id = call workflow_problem (Operations.get id actor)

  abbrev pub shown_workflow : Exec WorkflowError Session WorkflowView → Handler Response
  shown_workflow m = do v ← call workflow_problem m; pure (workflow_view v)

  unfoldable pub list_claims : ℕ → ℕ → Handler Response
  list_claims limit offset = do
    permit actor claim_read
    rows ← session_gets (λ s. Application.list_claims s.db actor limit offset)
    pure (claim_list rows)

  unfoldable pub upload_document : ℕ → Text → Option String → Bytes → Handler Response
  upload_document claim filename mime content = do
    permit actor document_upload
    limited "upload" sv.upload_rate_limit
    d ← call ingestion_problem (
        ingest sv.py sv.upload_library sv.processor actor sv.correlation_id sv.document_id claim
          filename mime content)
    shown_document d.id

  unfoldable pub document_detail : ℕ → Handler Response
  document_detail id = do
    permit actor document_read
    found ← session_gets (λ s. Application.document_detail s.db id actor)
    detail ← or_raise found not_found
    pure (document_detail_view detail)

  unfoldable pub retry_document : ℕ → Handler Response
  retry_document id = do
    permit actor document_upload
    found ← session_gets (λ s. get_document s.db id actor)
    or_raise found not_found
    d ← call unhandled_problem (process sv.py sv.processor actor sv.correlation_id id none)
    shown_document d.id

  unfoldable pub search_evidence : ℕ → String → ℕ → Handler Response
  search_evidence claim question limit = do
    permit actor retrieval_query
    limited "retrieval" sv.retrieval_rate_limit
    r ← call retrieval_problem (sv.retrieve claim actor question limit)
    append_audit (claim_audit "retrieval.search.completed" claim "success")
    pure (evidence_view r)

  unfoldable pub grounded_question : ℕ → String → ℕ → Handler Response
  grounded_question claim question limit = do
    permit actor retrieval_query
    limited "grounded_question" sv.retrieval_rate_limit
    r ← call retrieval_problem (answer sv.py sv.extract sv.retrieve claim actor question limit)
    append_audit (claim_audit "retrieval.answer.completed" claim (answer_outcome r.state))
    pure (answer_view r)

  unfoldable pub create_brief : ℕ → String → String → Handler Response
  create_brief claim task key = do
    permit actor brief_create
    limited "model_assistance" sv.model_rate_limit
    v ← call brief_problem (
        create sv.py sv.library sv.provider sv.limits sv.retrieve sv.brief_env (record {
          claim_id = claim;
          actor = actor;
          task = task;
          idempotency_key = key;
          correlation_id = sv.correlation_id;
        }))
    pure (brief_view v)

  unfoldable pub latest_brief : ℕ → Handler Response
  latest_brief claim = do
    permit actor brief_read
    v ← call brief_problem (Service.latest sv.py claim actor)
    pure (latest_brief_view v)

  unfoldable pub get_brief : ℕ → Handler Response
  get_brief id = do
    permit actor brief_read
    b ← call brief_problem (Service.get id actor)
    v ← call brief_problem (Service.view sv.py actor b)
    pure (brief_view v)

  unfoldable pub start_workflow : ℕ → String → String → Handler Response
  start_workflow claim task key = do
    permit actor workflow_start
    shown_workflow (
        start sv.py (answer sv.py sv.extract sv.retrieve) sv.env claim actor task key
          sv.correlation_id)

  unfoldable pub latest_workflow : ℕ → Handler Response
  latest_workflow claim = do
    permit actor workflow_read
    v ← call workflow_problem (Operations.latest claim actor)
    pure (latest_workflow_view v)

  unfoldable pub get_workflow : ℕ → Handler Response
  get_workflow id = do
    permit actor workflow_read
    w ← workflow_or_not_found id
    shown_workflow (viewed w)

  unfoldable pub workflow_history : ℕ → Handler Response
  workflow_history id = do
    permit actor workflow_read
    w ← workflow_or_not_found id
    events ← session_gets (λ s. history s.db w.id)
    pure (history_view events)

  unfoldable pub cancel_workflow : ℕ → Handler Response
  cancel_workflow id = do
    permit actor workflow_cancel
    w ← workflow_or_not_found id
    shown_workflow (cancel sv.env w actor)

  unfoldable pub review_workflow : ℕ → ReviewAction → String → ℕ → String → Handler Response
  review_workflow id action reason version key = do
    permit actor workflow_review
    w ← workflow_or_not_found id
    shown_workflow (submit_review sv.py sv.env w actor action reason version key)

  unfoldable pub retry_workflow : ℕ → String → Handler Response
  retry_workflow id key = do
    permit actor workflow_retry
    w ← workflow_or_not_found id
    shown_workflow (retry sv.py (answer sv.py sv.extract sv.retrieve) sv.env w actor key)
