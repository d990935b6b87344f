-- ===== src/Application.antt =====
-- application/services.py: `PlatformService`. A view keeps the rows that it shows.
pub mod Queue
mod Tests
use aegisclaims_ai.Store.Claims
use aegisclaims_ai.Documents.Conflicts
use text.Mathlib.Text.{starts_with}
use aegisclaims_ai.Prelude.{
  Bool, List, Option, String, [], any, false, filter, find, if◌then◌else◌, is_empty, ltb, map, none,
  not, some, str_eq, str_lt, true, ℕ, ◌&&◌, ◌==◌, ◌||◌, ◌∷◌,
}
use aegisclaims_ai.Domain.{Actor, ReviewStatus, RoleName, WorkflowStatus, admin, supervisor}
use aegisclaims_ai.ModelAssistance.Service.{newest_row, run_of}
use aegisclaims_ai.Retrieval.Indexing.{first_of, pages_of}
use aegisclaims_ai.Store.{
  ArtifactRow, Claim, ClaimAssignment, Db, Document, DocumentFact, DocumentPage, FactConflict,
  ProcessingEvent, ReviewTask, User, WorkflowRun,
}
use aegisclaims_ai.Store.Claims.{
  count_for_actor, get_document, get_for_actor, list_for_actor, review_status, sort_by,
}
use aegisclaims_ai.Store.Reviews.{count_open, list_open}

-- `DashboardView`
pub record DashboardView : Type 0 where
  pub assigned_claims : ℕ
  pub open_reviews : ℕ

abbrev pub is_reviewer_role : RoleName → Bool
is_reviewer_role supervisor = true
is_reviewer_role admin = true
is_reviewer_role _ = false

-- `dashboard`
unfoldable pub dashboard : Db → Actor → DashboardView
dashboard db actor = record {
  assigned_claims = count_for_actor db actor;
  open_reviews = if any is_reviewer_role actor.roles then count_open db actor else 0;
}

-- `ClaimSummaryView`; the status `none` is "not_started".
pub record ClaimSummaryView : Type 0 where
  pub claim : Claim
  pub workflow_status : Option WorkflowStatus
  pub assigned_to : Option String

abbrev pub is_assignment : ℕ → ℕ → ClaimAssignment → Bool
is_assignment tenant claim a =
    a.tenant_id == tenant
    && (a.claim_id == claim
        && (str_eq a.assignment_type "assigned"
            || str_eq a.assignment_type "synthetic_demo_access"))

-- The names that the join of the assignments with the users gives.
unfoldable pub assignee_names : List User → List ClaimAssignment → List String
assignee_names users [] = []
assignee_names users (a ∷ as') = elim (find (λ (u : User). u.id == a.user_id) users) [
  | none ↦ assignee_names users as'
  | some u ↦ u.display_name ∷ assignee_names users as'
]

abbrev pub status_of_run : Option WorkflowRun → Option WorkflowStatus
status_of_run none = none
status_of_run (some w) = some w.status

unfoldable pub claim_summary : Db → Actor → Claim → ClaimSummaryView
claim_summary db actor c = record {
  claim = c;
  workflow_status =
      status_of_run
        (newest_row (run_of actor.tenant_id c.id) (λ (w : WorkflowRun). w.created_at) db.runs);
  assigned_to = first_of (
      sort_by str_lt
        (assignee_names db.users (filter (is_assignment actor.tenant_id c.id) db.assignments)));
}

-- `list_claims`
unfoldable pub list_claims : Db → Actor → ℕ → ℕ → List ClaimSummaryView
list_claims db actor limit offset =
    map (claim_summary db actor) (list_for_actor db actor limit offset)

-- `ClaimWorkspaceView`
pub record ClaimWorkspaceView : Type 0 where
  pub claim : Claim
  pub documents : List Document
  pub conflicts : List FactConflict
  pub workflow : Option WorkflowRun
  pub human_review_status : Option ReviewStatus

-- `claim_workspace`
unfoldable pub claim_workspace : Db → ℕ → Actor → Option ClaimWorkspaceView
claim_workspace db claim_id actor = elim (get_for_actor db claim_id actor) [
  | none ↦ none
  | some c ↦ some (record {
    claim = c;
    documents = Claims.documents db claim_id actor;
    conflicts = Conflicts.conflicts db claim_id actor.tenant_id;
    workflow =
        newest_row (run_of actor.tenant_id claim_id) (λ (w : WorkflowRun). w.created_at) db.runs;
    human_review_status = review_status db claim_id actor;
  })
]

-- `DocumentDetailView`
pub record DocumentDetailView : Type 0 where
  pub document : Document
  pub pages : List DocumentPage
  pub facts : List DocumentFact
  pub conflicts : List FactConflict
  pub processing_history : List ProcessingEvent

-- The order by `(fact.page_number, fact.fact_type)`.
abbrev pub fact_before : DocumentFact → DocumentFact → Bool
fact_before a b =
    ltb a.page_number b.page_number
    || (a.page_number == b.page_number && str_lt a.fact_type b.fact_type)

abbrev pub is_conflict_of : ℕ → FactConflict → Bool
is_conflict_of id c = c.left_fact.document_id == id || c.right_fact.document_id == id

-- `document_detail`. Events are kept in the order of their creation.
unfoldable pub document_detail : Db → ℕ → Actor → Option DocumentDetailView
document_detail db document_id actor = elim (get_document db document_id actor) [
  | none ↦ none
  | some d ↦ some (record {
    document = d;
    pages = pages_of db d;
    facts = sort_by fact_before (filter (λ (f : DocumentFact). f.document_id == d.id) db.facts);
    conflicts = filter (is_conflict_of d.id) (Conflicts.conflicts db d.claim_id actor.tenant_id);
    processing_history =
        filter (λ (e : ProcessingEvent). e.document_id == d.id) db.processing_events;
  })
]

-- `ReviewTaskView`
pub record ReviewTaskView : Type 0 where
  pub task : ReviewTask
  pub workflow_status : Option WorkflowStatus
  pub safety_flags : List String
  pub claim_number : Option String
  pub assigned_to : Option String

-- The row of a dictionary that is looked up by an optional key. Identifiers are unique, and a
-- workflow has one artifact.
abbrev pub lookup_row {ℓ} : {A : Type ℓ} → (ℕ → A → Bool) → Option ℕ → List A → Option A
lookup_row p none rows = none
lookup_row p (some id) rows = find (p id) rows

abbrev pub is_evaluation : Option WorkflowRun → Bool
is_evaluation none = false
is_evaluation (some w) = starts_with w.correlation_id "phase4-evaluation-"

abbrev pub flag_if : Bool → String → List String → List String
flag_if true name rest = name ∷ rest
flag_if false name rest = rest

-- `flags`
unfoldable pub safety_flags : Option ArtifactRow → List String
safety_flags none = []
safety_flags (some a) = flag_if (not (is_empty a.content.conflicting_evidence)) "conflict" (
    flag_if (not (is_empty a.content.ambiguous_evidence)) "ambiguity" (
      flag_if (not (is_empty a.content.missing_information)) "missing_information"
        (flag_if (not (is_empty a.content.untrusted_content_flags)) "untrusted_content" [])))

abbrev pub workflow_of : Db → ℕ → ReviewTask → Option WorkflowRun
workflow_of db tenant t =
    lookup_row (λ id (w : WorkflowRun). w.id == id && w.tenant_id == tenant) t.workflow_run_id
      db.runs

unfoldable pub task_view : Db → ℕ → ReviewTask → ReviewTaskView
task_view db tenant t = record {
  task = t;
  workflow_status = status_of_run (workflow_of db tenant t);
  safety_flags = safety_flags (
      lookup_row (λ id (a : ArtifactRow). a.workflow_run_id == id && a.tenant_id == tenant)
        t.workflow_run_id db.artifacts);
  claim_number =
      elim (find (λ (c : Claim). c.id == t.claim_id && c.tenant_id == tenant) db.claims) [
        | none ↦ none
        | some c ↦ some c.claim_number
      ];
  assigned_to =
      elim (lookup_row (λ id (u : User). u.id == id && u.tenant_id == tenant) t.assigned_to_user_id
        db.users) [ none ↦ none | some u ↦ some u.display_name ];
}

-- The loop of `review_queue`, which leaves out the tasks of evaluation runs.
unfoldable pub task_views : Db → ℕ → List ReviewTask → List ReviewTaskView
task_views db tenant [] = []
task_views db tenant (t ∷ ts) =
    let rest = task_views db tenant ts in
    if is_evaluation (workflow_of db tenant t) then rest else task_view db tenant t ∷ rest

-- `review_queue`
unfoldable pub review_queue : Db → Actor → ℕ → ℕ → List ReviewTaskView
review_queue db actor limit offset = task_views db actor.tenant_id (list_open db actor limit offset)
