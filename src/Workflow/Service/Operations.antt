-- ===== src/Workflow/Service/Operations.antt =====
-- The operations of `ControlledWorkflowService`.
use aegisclaims_ai.Prelude.{
  Bool, List, Option, String, [], false, filter, find, if◌then◌else◌, ltb, none, not, some, str_eq,
  str_take, ℕ, ◌&&◌, ◌++◌, ◌==◌, ◌∷◌,
}
use aegisclaims_ai.Domain.{Actor, WorkflowStatus}
use aegisclaims_ai.Prelude.Exec.{
  Exec, Result, err, gets, ok, or_raise, pure, raise, raise_if, ◌>>=◌, ◌>>◌,
}
use aegisclaims_ai.Prelude.Python.{Python}
use aegisclaims_ai.Retrieval.Types.{
  Answer, RetrievalError, claim_not_found, document_not_found, embedding_failed,
}
use aegisclaims_ai.Store.{
  ApprovalState, Claim, Db, Env, ReviewArtifact, Session, Stage, WorkflowEvent, WorkflowRun,
  WorkflowState, commit, rollback, workflow_created, workflow_failed, workflow_stage, write,
}
use aegisclaims_ai.Store.Claims.{get_for_actor, sort_by}
use aegisclaims_ai.Workflow.Graph.{nodes, option_str_eq}
use aegisclaims_ai.Workflow.Service.{
  Workflow, artifact_of, event_of, fingerprint, initial_state, key_used_for_other_task, of_run,
  persist, state_from_checkpoint, text_or, workflow_execution_failed, workflow_not_found,
  workflow_version,
}
use aegisclaims_ai.Workflow.Service.Drive.{conclude, drive}

-- `view`
pub record WorkflowView : Type 0 where
  pub id : ℕ
  pub claim_id : ℕ
  pub status : WorkflowStatus
  pub current_stage : Stage
  pub checkpoint_version : ℕ
  pub task : String
  pub applicable_policy_edition : String
  pub human_review_required : Bool
  pub approval_state : ApprovalState
  pub retry_count : ℕ
  pub max_retries : ℕ
  pub input_fingerprint : String
  pub error_code : Option String
  pub error_detail : Option String
  pub artifact : Option ReviewArtifact

unfoldable pub view : Db → WorkflowRun → WorkflowView
view db w = record {
  id = w.id;
  claim_id = w.claim_id;
  status = w.status;
  current_stage = w.current_stage;
  checkpoint_version = w.checkpoint_version;
  task = text_or w.task "Legacy workflow";
  applicable_policy_edition = text_or w.applicable_policy_edition "unknown";
  human_review_required = w.human_review_required;
  approval_state = w.approval_state;
  retry_count = w.retry_count;
  max_retries = w.max_retries;
  input_fingerprint = text_or w.input_fingerprint "";
  error_code = w.error_code;
  error_detail = w.error_detail;
  artifact = elim (find (artifact_of w.id) db.artifacts) [ none ↦ none | some a ↦ some a.content ];
}

abbrev pub viewed : WorkflowRun → Workflow WorkflowView
viewed w = gets (λ (s : Session). view s.db w)

-- `str(exc)`
abbrev pub error_text : RetrievalError → String
error_text claim_not_found = "claim not found"
error_text document_not_found = "document not found"
error_text (embedding_failed text) = text

-- The run that a query selects by its start key.
abbrev pub started_with : ℕ → ℕ → String → WorkflowRun → Bool
started_with tenant claim key w =
    w.tenant_id == tenant && (w.claim_id == claim && option_str_eq w.idempotency_key (some key))

-- The new row of `start`.
unfoldable pub new_run : Env → Actor → Claim → String → String → String → String → WorkflowRun
new_run env actor claim task key correlation_id input_fingerprint = record {
  id = env.fresh;
  tenant_id = actor.tenant_id;
  claim_id = claim.id;
  status = WorkflowStatus.created;
  version = workflow_version;
  correlation_id = correlation_id;
  task = some task;
  current_stage = Stage.created;
  checkpoint_version = 0;
  idempotency_key = some key;
  input_fingerprint = some input_fingerprint;
  applicable_policy_edition = some claim.policy_edition;
  human_review_required = false;
  approval_state = ApprovalState.not_required;
  retry_count = 0;
  max_retries = 2;
  error_code = none;
  error_detail = none;
  completed_at = none;
  created_at = env.now;
  updated_at = env.now;
}

-- What the `except` clause of `start` puts into the state of the last checkpoint, and persists.
abbrev pub failed_state : RetrievalError → WorkflowState → WorkflowState
failed_state e state = record state {
  current_stage = Stage.failed;
  status = WorkflowStatus.failed;
  error_code = some "workflow_node_failure";
  error_detail = some (str_take 500 (error_text e));
}

unfoldable pub mark_failed :
    Env → WorkflowRun → RetrievalError → WorkflowState → Workflow (Unit {0})
mark_failed env w e state = do
  persist env w (failed_state e state) none workflow_failed (some w.status)
  commit

-- The `except` clause: back to the last commit, where the run is marked as failed.
unfoldable pub record_failure : Env → ℕ → RetrievalError → Workflow (Unit {0})
record_failure env id e = do
  rollback
  found ← gets (λ (s : Session). find (of_run id) s.db.runs)
  elim found [
    | none ↦ pure tt
    | some w ↦ do state ← state_from_checkpoint id; mark_failed env w e state
  ]

-- `try: body except Exception: handler`
abbrev pub handled :
    {A : Type 0} → Result RetrievalError A → (RetrievalError → Workflow A) → Workflow A
handled (ok a) handler s = (ok a, s)
handled (err e) handler s = handler e s

abbrev pub try_with :
    {A : Type 0} → Exec RetrievalError Session A → (RetrievalError → Workflow A) → Workflow A
try_with body handler s = handled (body s).0 handler (body s).1

module _ (py : Python) (answer : Answer) (env : Env) where
  -- The part of `start` after the replay check.
  unfoldable pub start_new : Actor → Claim → String → String → String → Workflow WorkflowView
  start_new actor claim task key correlation_id = do
    print ← gets (λ (s : Session). fingerprint py s.db claim.id actor task)
    let w = new_run env actor claim task key correlation_id print
    write (λ db. record db { runs = db.runs ++ w ∷ [] })
    state ← gets (λ (s : Session). initial_state s.db w actor)
    (w₁, state₁) ← persist env w state (some actor.user_id) workflow_created none
    w₂ ←
        try_with
          (do
            p ←
                drive env none workflow_stage (nodes py answer actor)
                  (record { run = w₁; state = state₁; last = some state₁.current_stage }) state₁
            conclude env p)
          (λ e. do record_failure env w₁.id e; raise workflow_execution_failed)
    viewed w₂

  -- `start`
  unfoldable pub start : ℕ → Actor → String → String → String → Workflow WorkflowView
  start claim_id actor task key correlation_id = do
    found ← gets (λ (s : Session). get_for_actor s.db claim_id actor)
    claim ← or_raise found workflow_not_found
    existing ← gets (λ (s : Session). find (started_with actor.tenant_id claim_id key) s.db.runs)
    elim existing [
      | some w ↦ do
        raise_if (not (option_str_eq w.task (some task))) key_used_for_other_task
        viewed w
      | none ↦ start_new actor claim task key correlation_id
    ]

-- `get`
unfoldable pub get : ℕ → Actor → Workflow WorkflowRun
get workflow_id actor = do
  found ← gets (λ (s : Session).
      find (λ w. of_run workflow_id w && w.tenant_id == actor.tenant_id) s.db.runs)
  w ← or_raise found workflow_not_found
  claim ← gets (λ (s : Session). get_for_actor s.db w.claim_id actor)
  or_raise claim workflow_not_found
  pure w

-- `history`: the events of a workflow in the order of their sequence numbers.
unfoldable pub history : Db → ℕ → List WorkflowEvent
history db id = sort_by (λ a b. ltb a.sequence b.sequence) (filter (event_of id) db.events)

-- The newest of the workflows that a query selects.
unfoldable pub newest_run : (WorkflowRun → Bool) → List WorkflowRun → Option WorkflowRun
newest_run p [] = none
newest_run p (w ∷ ws) =
    let rest = newest_run p ws in
    if p w
    then elim rest [
      | none ↦ some w
      | some u ↦ if ltb w.created_at u.created_at then some u else some w
    ]
    else rest

-- The query of `latest`.
abbrev pub is_current : ℕ → ℕ → WorkflowRun → Bool
is_current claim tenant w =
    w.claim_id == claim && (w.tenant_id == tenant && str_eq w.version workflow_version)

-- `latest`
unfoldable pub latest : ℕ → Actor → Workflow (Option WorkflowView)
latest claim_id actor = do
  claim ← gets (λ (s : Session). get_for_actor s.db claim_id actor)
  or_raise claim workflow_not_found
  gets (λ (s : Session). elim (newest_run (is_current claim_id actor.tenant_id) s.db.runs) [
    | none ↦ none
    | some w ↦ some (view s.db w)
  ])
