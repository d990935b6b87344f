-- ===== src/Workflow/Service.antt =====
-- workflows/service.py: `ControlledWorkflowService` over the session.
pub mod Drive
pub mod Operations
pub mod Actions
use aegisclaims_ai.Prelude.{
  Bool, List, Option, String, [], any, count_where, false, if◌then◌else◌, ltb, map, none, some,
  str_eq, str_lt, update_first, update_where, ℕ, ◌++◌, ◌+◌, ◌==◌, ◌∷◌,
}
use aegisclaims_ai.Documents.Conflicts.{conflicts}
use aegisclaims_ai.Domain.{Actor, ReviewStatus, WorkflowStatus}
use aegisclaims_ai.Prelude.Exec.{Exec, gets, or_raise, pure, ◌>>=◌, ◌>>◌}
use aegisclaims_ai.Prelude.Python.{Python}
use aegisclaims_ai.Retrieval.Types.{RetrievalError}
use aegisclaims_ai.Store.{
  ApprovalState, ArtifactRow, AuditEvent, Db, Document, Env, EventType, ReviewAction,
  ReviewArtifact, ReviewTask, Session, Stage, WorkflowCheckpoint, WorkflowEvent, WorkflowRun,
  WorkflowState, acknowledge, approve_proposed_next_step, commit, reject_proposal,
  request_more_information, return_for_evidence_review, review, workflow_cancelled,
  workflow_created, workflow_failed, workflow_retry, workflow_stage, write,
}
use aegisclaims_ai.Store.Claims.{documents, is_active_status, review_status, sort_by}
use Prim.Native.String.{◌++◌ as concat}

-- The exceptions, with the detail of each `WorkflowConflictError`.
pub data WorkflowError : Type 0 where
  workflow_not_found key_used_for_other_task key_used_for_other_action : WorkflowError
  not_awaiting_review stale_checkpoint evidence_changed workflow_changed : WorkflowError
  cannot_cancel cannot_retry retry_limit_reached no_checkpoint : WorkflowError
  workflow_execution_failed : WorkflowError
  node_failure : RetrievalError → WorkflowError

abbrev pub Workflow : Type 0 → Type 0
Workflow = Exec WorkflowError Session

abbrev pub workflow_version : String
workflow_version = "phase4-claim-evidence-review-v1"

-- `"|".join(parts)`
abbrev pub join_bar : List String → String
join_bar [] = ""
join_bar (c ∷ []) = c
join_bar (c ∷ cs) = concat c (concat "|" (join_bar cs))

-- `_fingerprint`
unfoldable pub fingerprint : Python → Db → ℕ → Actor → String → String
fingerprint py db claim_id actor task =
    let checksums = map (λ (d : Document). d.checksum_sha256) (documents db claim_id actor) in
    py.sha256 (concat (join_bar (sort_by str_lt checksums)) (concat "|" task))

-- `value or default` on optional text
abbrev pub text_or : Option String → String → String
text_or none d = d
text_or (some s) d = if str_eq s "" then d else s

-- `_initial_state`
unfoldable pub initial_state : Db → WorkflowRun → Actor → WorkflowState
initial_state db w actor = record {
  workflow_id = w.id;
  workflow_version = w.version;
  tenant_id = w.tenant_id;
  claim_id = w.claim_id;
  initiating_actor_id = actor.user_id;
  correlation_id = w.correlation_id;
  current_stage = Stage.created;
  status = WorkflowStatus.created;
  task = text_or w.task "";
  retrieved_evidence = [];
  citations = [];
  applicable_policy_edition = text_or w.applicable_policy_edition "unknown";
  conflicts = [];
  ambiguities = [];
  missing_information = [];
  prompt_injection_indicators = [];
  human_review_required = elim (review_status db w.claim_id actor) [
    | none ↦ false
    | some st ↦ is_active_status st
  ];
  human_review_reason = none;
  proposed_next_steps = [];
  approval_state = ApprovalState.not_required;
  checkpoint_version = 0;
  input_fingerprint = text_or w.input_fingerprint "";
  retry_count = w.retry_count;
  max_retries = w.max_retries;
  error_code = none;
  error_detail = none;
}

-- The rows of one workflow.
abbrev pub of_run : ℕ → WorkflowRun → Bool
of_run id w = w.id == id

abbrev pub checkpoint_of : ℕ → WorkflowCheckpoint → Bool
checkpoint_of id c = c.workflow_run_id == id

abbrev pub event_of : ℕ → WorkflowEvent → Bool
event_of id e = e.workflow_run_id == id

abbrev pub optional_is : Option ℕ → ℕ → Bool
optional_is none id = false
optional_is (some a) id = a == id

abbrev pub review_task_of : ℕ → ReviewTask → Bool
review_task_of id t = optional_is t.workflow_run_id id

abbrev pub artifact_of : ℕ → ArtifactRow → Bool
artifact_of id a = a.workflow_run_id == id

-- `_audit`
unfoldable pub audit_row : WorkflowRun → Option ℕ → String → String → AuditEvent
audit_row w actor_id action outcome = record {
  tenant_id = w.tenant_id;
  actor_user_id = actor_id;
  action = action;
  resource_type = "workflow";
  resource_id = w.id;
  outcome = outcome;
  correlation_id = w.correlation_id;
}

abbrev pub stage_name : Stage → String
stage_name Stage.created = "created"
stage_name Stage.gathering_evidence = "gathering_evidence"
stage_name Stage.evaluating_evidence = "evaluating_evidence"
stage_name Stage.provenance_validation_failed = "provenance_validation_failed"
stage_name Stage.determining_review_requirements = "determining_review_requirements"
stage_name Stage.failed = "failed"
stage_name Stage.awaiting_human_review = "awaiting_human_review"
stage_name Stage.completed = "completed"
stage_name Stage.cancelled = "cancelled"
stage_name Stage.awaiting_additional_information = "awaiting_additional_information"

abbrev pub action_name : ReviewAction → String
action_name acknowledge = "acknowledge"
action_name approve_proposed_next_step = "approve_proposed_next_step"
action_name reject_proposal = "reject_proposal"
action_name request_more_information = "request_more_information"
action_name return_for_evidence_review = "return_for_evidence_review"

abbrev pub event_name : EventType → String
event_name workflow_created = "workflow.created"
event_name workflow_cancelled = "workflow.cancelled"
event_name workflow_failed = "workflow.failed"
event_name (workflow_stage s) = concat "workflow." (stage_name s)
event_name (workflow_retry s) = concat "workflow.retry." (stage_name s)
event_name (review a) = concat "review." (action_name a)

-- `_checkpoint_and_event`: one checkpoint, one event with the next sequence number, one audit row.
unfoldable pub checkpoint_and_event :
    WorkflowRun → WorkflowState → Option ℕ → EventType → Option WorkflowStatus → Db → Db
checkpoint_and_event w state actor_id event_type previous db = record db {
  checkpoints =
      db.checkpoints
      ++ record {
        workflow_run_id = w.id;
        tenant_id = w.tenant_id;
        claim_id = w.claim_id;
        version = w.checkpoint_version;
        stage = state.current_stage;
        status = state.status;
        state = state;
        input_fingerprint = state.input_fingerprint;
      }
        ∷ [];
  events =
      db.events
      ++ record {
        workflow_run_id = w.id;
        tenant_id = w.tenant_id;
        claim_id = w.claim_id;
        sequence = count_where (event_of w.id) db.events + 1;
        actor_user_id = actor_id;
        event_type = event_type;
        previous_status = previous;
        new_status = state.status;
        stage = state.current_stage;
        correlation_id = w.correlation_id;
      }
        ∷ [];
  audits = db.audits ++ audit_row w actor_id (event_name event_type) "success" ∷ [];
}

-- The columns that `_persist` assigns, from the state.
unfoldable pub persisted : ℕ → WorkflowState → WorkflowRun → WorkflowRun
persisted now state w = record w {
  checkpoint_version = state.checkpoint_version;
  status = state.status;
  current_stage = state.current_stage;
  human_review_required = state.human_review_required;
  approval_state = state.approval_state;
  error_code = state.error_code;
  error_detail = state.error_detail;
  updated_at = now;
}

-- The attributes of a loaded workflow are written to its row, those that did not change included.
abbrev pub write_run : WorkflowRun → Db → Db
write_run w db = record db { runs = update_where (of_run w.id) (λ _. w) db.runs }

-- `_persist`: the next checkpoint version, the row, its checkpoint and event, and the commit.
unfoldable pub persist :
    {E : Type 0}
    → Env
    → WorkflowRun
    → WorkflowState
    → Option ℕ
    → EventType
    → Option WorkflowStatus
    → Exec E Session (WorkflowRun × WorkflowState)
persist env w state actor_id event_type previous = do
  let state' = record state { checkpoint_version = w.checkpoint_version + 1 }
  let w' = persisted env.now state' w
  write (λ db. checkpoint_and_event w' state' actor_id event_type previous (write_run w' db))
  commit
  pure (w', state')

-- `_state_from_checkpoint`: the newest checkpoint of the workflow.
unfoldable pub latest_checkpoint : ℕ → List WorkflowCheckpoint → Option WorkflowCheckpoint
latest_checkpoint id [] = none
latest_checkpoint id (c ∷ cs) =
    let rest = latest_checkpoint id cs in
    if checkpoint_of id c
    then elim rest [ none ↦ some c | some d ↦ if ltb c.version d.version then some d else some c ]
    else rest

unfoldable pub state_from_checkpoint : ℕ → Workflow WorkflowState
state_from_checkpoint id = do
  found ← gets (λ (s : Session). latest_checkpoint id s.db.checkpoints)
  c ← or_raise found no_checkpoint
  pure c.state

-- `_upsert_artifact`
unfoldable pub upsert_artifact : WorkflowRun → ReviewArtifact → Db → Db
upsert_artifact w content db =
    if any (artifact_of w.id) db.artifacts
    then record db {
      artifacts =
          update_first (artifact_of w.id)
            (λ a. record a { version = a.version + 1; content = content }) db.artifacts;
    }
    else record db {
      artifacts =
          db.artifacts
          ++ record {
            workflow_run_id = w.id;
            tenant_id = w.tenant_id;
            claim_id = w.claim_id;
            version = 1;
            content = content;
          }
            ∷ [];
    }

-- `_upsert_review_task`: a task that exists stays as it is.
unfoldable pub upsert_review_task : Env → WorkflowRun → WorkflowState → Db → Db
upsert_review_task env w state db =
    if any (review_task_of w.id) db.review_tasks then db else record db {
      review_tasks =
          db.review_tasks
          ++ record {
            tenant_id = w.tenant_id;
            claim_id = w.claim_id;
            workflow_run_id = some w.id;
            assigned_to_user_id = none;
            status = ReviewStatus.open_task;
            reason_code = "phase4_workflow_review";
            reason = text_or state.human_review_reason "Human review required by workflow policy.";
            version = 1;
            created_at = env.now;
            updated_at = env.now;
            completed_at = none;
          }
            ∷ [];
    }
