-- ===== src/Workflow/Cancellation.antt =====
-- What a cancellation leaves in the committed database.
use mathlib.Core.Path.{subst}
use aegisclaims_ai.Prelude.{Bool-cases, false, find, inl, inr, refl, some, sym, ℕ, ◌≡◌}
use aegisclaims_ai.Domain.{Actor, WorkflowStatus}
use aegisclaims_ai.Prelude.Exec.{Result, continue, err, err≢ok, ok}
use aegisclaims_ai.Store.{
  ApprovalState, Db, Env, Session, Stage, WorkflowRun, WorkflowState, workflow_cancelled,
}
use aegisclaims_ai.Workflow.Service.{
  WorkflowError, of_run, persist, persisted, state_from_checkpoint,
}
use aegisclaims_ai.Workflow.Service.Actions.{cancel, cancel_from, cancelled_state, is_closed}
use aegisclaims_ai.Workflow.Service.Operations.{WorkflowView}
use aegisclaims_ai.Workflow.Trail.{IsTracked}
use aegisclaims_ai.Workflow.Trail.Operations.{completed-IsTracked, state_from_checkpoint-same}
use aegisclaims_ai.Workflow.Trail.Steps.{IsTracked-IsReady, next_db, next_run, persist-IsTracked}

-- The workflow of this identifier is cancelled, at this time.
pub record IsCancelled (id now : ℕ) (db : Db) : Type 0 where
  pub row : WorkflowRun
  pub current : find (of_run id) db.runs ≡ some row
  pub status : row.status ≡ WorkflowStatus.cancelled
  pub stage : row.current_stage ≡ Stage.cancelled
  pub approval : row.approval_state ≡ ApprovalState.cancelled
  pub completed : row.completed_at ≡ some now

cancel_from-IsCancelled :
    (env : Env) (w : WorkflowRun) (actor : Actor) (v : WorkflowView)
    (x : Result WorkflowError WorkflowState × Session)
    → IsTracked w x.1.db
    → (continue x.0 (cancel_from env w actor) x.1).0 ≡ ok v
    → IsCancelled w.id env.now (continue x.0 (cancel_from env w actor) x.1).1.saved
unfolding cancel_from persist persisted
cancel_from-IsCancelled env w actor v (ok state, s) t h =
    let w₁ = next_run env w (cancelled_state state) in
    let db₁ : Db =
      next_db env w (cancelled_state state) (some actor.user_id) workflow_cancelled (some w.status)
        s.db in
    let t₁ : IsTracked w₁ db₁ =
      persist-IsTracked env w (cancelled_state state) (some actor.user_id) workflow_cancelled
        (some w.status) s.db (IsTracked-IsReady w s.db t) in
    record {
      row = record w₁ { completed_at = some env.now };
      current = (completed-IsTracked w₁ (some env.now) db₁ t₁).current;
      status = refl;
      stage = refl;
      approval = refl;
      completed = refl;
    }
cancel_from-IsCancelled env w actor v (err e, s) t h = absurd (err≢ok h)

-- A cancellation that succeeds was of a workflow that was not closed, and leaves it cancelled in the
-- committed database, with the time of the cancellation.
pub cancel-IsCancelled :
    (env : Env) (w : WorkflowRun) (actor : Actor) (v : WorkflowView) (s : Session)
    → IsTracked w s.db
    → (cancel env w actor s).0 ≡ ok v
    → (is_closed w.status ≡ false) × IsCancelled w.id env.now (cancel env w actor s).1.saved
unfolding cancel
cancel-IsCancelled env w actor v s t h = elim (Bool-cases (is_closed w.status)) [
  | inl closed ↦ absurd (err≢ok (rw closed at h))
  | inr live ↦ (
    live,
    rw live (
        cancel_from-IsCancelled env w actor v (state_from_checkpoint w.id s)
          (subst (λ (r : Session). IsTracked w r.db)
            (sym (state_from_checkpoint-same env w.id w.id s)) t)
          (rw live at h)),
  )
]
