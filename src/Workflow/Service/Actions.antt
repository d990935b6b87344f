-- ===== src/Workflow/Service/Actions.antt =====
-- `review`, `cancel` and `retry` of `ControlledWorkflowService`. Each is given the workflow that
-- the route has loaded before, which may differ from its row by now.
use Prim.Native.String.{◌++◌ as concat}
use aegisclaims_ai.Prelude.{
  Bool, String, [], count_where, false, find, if◌then◌else◌, is_some, leb, none, not, some, str_eq,
  true, update_first, update_where, ℕ, ◌&&◌, ◌++◌, ◌+◌, ◌==◌, ◌∷◌,
}
use aegisclaims_ai.Domain.{Actor, ReviewStatus, WorkflowStatus}
use aegisclaims_ai.Prelude.Exec.{gets, or_raise, raise, raise_if, ◌>>=◌, ◌>>◌}
use aegisclaims_ai.Prelude.Python.{Python}
use aegisclaims_ai.Retrieval.Types.{Answer, RetrievalError}
use aegisclaims_ai.Store.{
  ApprovalState, Db, Env, RecordedAction, ReviewAction, ReviewActionRow, ReviewTask, Session, Stage,
  WorkflowRun, WorkflowState, acknowledge, approve_proposed_next_step, commit, reject_proposal,
  request_more_information, retried, return_for_evidence_review, review, reviewed, rollback,
  workflow_cancelled, workflow_retry, write,
}
use aegisclaims_ai.Store.Claims.{duplicate}
use aegisclaims_ai.Workflow.Graph.{nodes, option_str_eq}
use aegisclaims_ai.Workflow.Service.{
  Workflow, action_name, audit_row, cannot_cancel, cannot_retry, checkpoint_and_event,
  evidence_changed, fingerprint, initial_state, key_used_for_other_action, node_failure,
  not_awaiting_review, of_run, persist, retry_limit_reached, review_task_of, stale_checkpoint,
  state_from_checkpoint, text_or, workflow_changed, workflow_not_found, write_run,
}
use aegisclaims_ai.Workflow.Service.Drive.{conclude, drive}
use aegisclaims_ai.Workflow.Service.Operations.{WorkflowView, try_with, viewed}

-- `terminal`
abbrev pub is_terminal : ReviewAction → Bool
is_terminal acknowledge = true
is_terminal approve_proposed_next_step = true
is_terminal reject_proposal = true
is_terminal _ = false

-- `approval`
abbrev pub approval_of : ReviewAction → ApprovalState
approval_of acknowledge = ApprovalState.acknowledged
approval_of approve_proposed_next_step = ApprovalState.proposal_approved
approval_of reject_proposal = ApprovalState.proposal_rejected
approval_of request_more_information = ApprovalState.more_information_requested
approval_of return_for_evidence_review = ApprovalState.returned_for_evidence_review

abbrev pub review_status_of : ReviewAction → WorkflowStatus
review_status_of a =
    if is_terminal a
    then WorkflowStatus.completed
    else WorkflowStatus.awaiting_additional_information

abbrev pub review_stage_of : ReviewAction → Stage
review_stage_of a = if is_terminal a then Stage.completed else Stage.awaiting_additional_information

abbrev pub is_awaiting : WorkflowStatus → Bool
is_awaiting WorkflowStatus.awaiting_human_review = true
is_awaiting _ = false

abbrev pub same_action : RecordedAction → ReviewAction → Bool
same_action (reviewed b) a = str_eq (action_name b) (action_name a)
same_action retried a = false

-- The action that a workflow has recorded under an idempotency key.
abbrev pub recorded_under : ℕ → String → ReviewActionRow → Bool
recorded_under id key r = r.workflow_run_id == id && str_eq r.idempotency_key key

-- The `WHERE` clause of the conditional update.
abbrev pub is_reviewable : ℕ → ℕ → WorkflowRun → Bool
is_reviewable id expected w =
    of_run id w && (w.checkpoint_version == expected && is_awaiting w.status)

-- The values that the update sets.
unfoldable pub decided : Env → ReviewAction → WorkflowRun → WorkflowRun
decided env action w = record w {
  status = review_status_of action;
  current_stage = review_stage_of action;
  approval_state = approval_of action;
  checkpoint_version = w.checkpoint_version + 1;
  completed_at = if is_terminal action then some env.now else none;
  updated_at = env.now;
}

-- What becomes of the review task.
unfoldable pub decided_task : Env → Actor → ReviewAction → ReviewTask → ReviewTask
decided_task env actor action t = record t {
  status = if is_terminal action then ReviewStatus.completed else ReviewStatus.open_task;
  assigned_to_user_id = some actor.user_id;
  version = t.version + 1;
  updated_at = env.now;
  completed_at = if is_terminal action then some env.now else none;
}

abbrev pub reviewed_state : WorkflowRun → ReviewAction → WorkflowState → WorkflowState
reviewed_state w action state = record state {
  status = review_status_of action;
  current_stage = review_stage_of action;
  approval_state = approval_of action;
  checkpoint_version = w.checkpoint_version;
}

-- The end of `review`, for the refreshed workflow and the state of its last checkpoint.
unfoldable pub review_from :
    WorkflowRun → Actor → ReviewAction → WorkflowState → Workflow WorkflowView
review_from w actor action state = do
  write (
      checkpoint_and_event w (reviewed_state w action state) (some actor.user_id) (review action)
        (some WorkflowStatus.awaiting_human_review))
  write (λ db. record db {
    audits =
        db.audits
        ++ audit_row w (some actor.user_id) (concat "workflow.review." (action_name action))
            "success"
          ∷ [];
  })
  commit
  viewed w

-- The writes of `review` from the conditional update to the review task.
unfoldable pub decide : Env → WorkflowRun → Actor → ReviewAction → String → ℕ → String → Db → Db
decide env w actor action reason expected key db = record db {
  runs = update_where (is_reviewable w.id expected) (decided env action) db.runs;
  review_actions =
      db.review_actions
      ++ record {
        workflow_run_id = w.id;
        tenant_id = w.tenant_id;
        actor_user_id = actor.user_id;
        action = reviewed action;
        reason = reason;
        expected_checkpoint_version = expected;
        idempotency_key = key;
      }
        ∷ [];
  review_tasks = update_first (review_task_of w.id) (decided_task env actor action) db.review_tasks;
}

-- `review`, after its checks on the workflow that was loaded.
unfoldable pub apply_review :
    Env → WorkflowRun → Actor → ReviewAction → String → ℕ → String → Workflow WorkflowView
apply_review env w actor action reason expected key = do
  rowcount ← gets (λ (s : Session). count_where (is_reviewable w.id expected) s.db.runs)
  if rowcount == 1
      then (do
        write (decide env w actor action reason expected key)
        refreshed ← gets (λ (s : Session). find (of_run w.id) s.db.runs)
        w' ← or_raise refreshed workflow_not_found
        state ← state_from_checkpoint w'.id
        review_from w' actor action state)
      else (do rollback; raise workflow_changed)

module _ (py : Python) (env : Env) where
  -- `review`
  unfoldable pub submit_review :
      WorkflowRun → Actor → ReviewAction → String → ℕ → String → Workflow WorkflowView
  submit_review w actor action reason expected key = do
    duplicate ← gets (λ (s : Session). find (recorded_under w.id key) s.db.review_actions)
    elim duplicate [
      | some d ↦ do
        raise_if (not (same_action d.action action && str_eq d.reason reason))
            key_used_for_other_action
        viewed w
      | none ↦ do
        raise_if (not (is_awaiting w.status)) not_awaiting_review
        raise_if (not (w.checkpoint_version == expected)) stale_checkpoint
        current ← gets (λ (s : Session). fingerprint py s.db w.claim_id actor (text_or w.task ""))
        raise_if (not (option_str_eq (some current) w.input_fingerprint)) evidence_changed
        apply_review env w actor action reason expected key
    ]

abbrev pub is_closed : WorkflowStatus → Bool
is_closed WorkflowStatus.completed = true
is_closed WorkflowStatus.cancelled = true
is_closed _ = false

abbrev pub cancelled_state : WorkflowState → WorkflowState
cancelled_state state = record state {
  status = WorkflowStatus.cancelled;
  current_stage = Stage.cancelled;
  approval_state = ApprovalState.cancelled;
}

-- `cancel` from the state of the last checkpoint.
unfoldable pub cancel_from : Env → WorkflowRun → Actor → WorkflowState → Workflow WorkflowView
cancel_from env w actor state = do
  (w', _) ←
      persist env w (cancelled_state state) (some actor.user_id) workflow_cancelled (some w.status)
  let w₂ = record w' { completed_at = some env.now }
  write (λ db. record (write_run w₂ db) {
    review_tasks =
        update_first (review_task_of w.id)
          (λ t. record t { status = ReviewStatus.cancelled; completed_at = some env.now })
          db.review_tasks;
  })
  commit
  viewed w₂

-- `cancel`
unfoldable pub cancel : Env → WorkflowRun → Actor → Workflow WorkflowView
cancel env w actor = do
  raise_if (is_closed w.status) cannot_cancel
  state ← state_from_checkpoint w.id
  cancel_from env w actor state

abbrev pub can_retry : WorkflowStatus → Bool
can_retry WorkflowStatus.failed = true
can_retry WorkflowStatus.awaiting_additional_information = true
can_retry _ = false

-- An exception of the retrieval that the caller does not handle.
abbrev pub unhandled : {A : Type 0} → RetrievalError → Workflow A
unhandled e = raise (node_failure e)

module _ (py : Python) (answer : Answer) (env : Env) where
  -- `retry`
  unfoldable pub retry : WorkflowRun → Actor → String → Workflow WorkflowView
  retry w actor key = do
    duplicate ← gets (λ (s : Session). find (recorded_under w.id key) s.db.review_actions)
    if is_some duplicate then viewed w else (do
      raise_if (not (can_retry w.status)) cannot_retry
      raise_if (leb w.max_retries w.retry_count) retry_limit_reached
      write (λ db. record db {
        review_actions =
            db.review_actions
            ++ record {
              workflow_run_id = w.id;
              tenant_id = w.tenant_id;
              actor_user_id = actor.user_id;
              action = retried;
              reason = "Bounded workflow retry requested.";
              expected_checkpoint_version = w.checkpoint_version;
              idempotency_key = key;
            }
              ∷ [];
      })
      print ← gets (λ (s : Session). fingerprint py s.db w.claim_id actor (text_or w.task ""))
      let w₁ = record w {
        retry_count = w.retry_count + 1;
        error_code = none;
        error_detail = none;
        input_fingerprint = some print;
      }
      state ← gets (λ (s : Session). initial_state s.db w₁ actor)
      w₂ ←
          try_with
            (do
              p ←
                  drive env (some actor.user_id) workflow_retry (nodes py answer actor)
                    (record { run = w₁; state = state; last = none }) state
              conclude env p)
            unhandled
      viewed w₂)
