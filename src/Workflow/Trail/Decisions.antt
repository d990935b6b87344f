-- ===== src/Workflow/Trail/Decisions.antt =====
-- The trail of a workflow through `retry` and `cancel`, from one that is tracked when it is loaded.
use mathlib.Core.Path.{subst}
use aegisclaims_ai.Prelude.{
  Bool-cases, List, String, arith, false, find, inl, inr, is_some, leb, none, refl, some, sym, ℕ,
  ◌+◌, ◌≡◌,
}
use aegisclaims_ai.Domain.{Actor}
use aegisclaims_ai.Prelude.Exec.{Result, continue, err, ok}
use aegisclaims_ai.Prelude.Python.{Python}
use aegisclaims_ai.Retrieval.Answering.{answer}
use aegisclaims_ai.Retrieval.Types.{Answer, RetrievalError}
use aegisclaims_ai.Store.{
  Db, Env, ReviewActionRow, Session, WorkflowRun, WorkflowState, workflow_cancelled, workflow_retry,
}
use aegisclaims_ai.Workflow.Graph.{nodes}
use aegisclaims_ai.Workflow.Service.{
  WorkflowError, persist, persisted, state_from_checkpoint, write_run,
}
use aegisclaims_ai.Workflow.Service.Actions.{
  can_retry, cancel, cancel_from, cancelled_state, is_closed, recorded_under, retry, unhandled,
}
use aegisclaims_ai.Workflow.Service.Drive.{Progress, conclude}
use aegisclaims_ai.Workflow.Service.Operations.{handled}
use aegisclaims_ai.Workflow.Trail.{IsTracked}
use aegisclaims_ai.Workflow.Trail.Loop.{KeepsWorkflows, Kept, Tracks, drive_ready-Kept}
use aegisclaims_ai.Workflow.Trail.Operations.{
  IsTracked-tables, completed-IsTracked, conclude-Tracks, continue-Tracks, nodes-Quiet,
  state_from_checkpoint-same,
}
use aegisclaims_ai.Workflow.Trail.Steps.{
  IsReady, IsTracked-IsReady, next_db, next_run, persist-IsTracked,
}

module _ (env : Env) (id : ℕ) where
  unhandled-Tracks :
      (x : Result RetrievalError Progress × Session)
      → Kept id x
      → let y = continue x.0 (conclude env) x.1 in Tracks id (handled y.0 unhandled y.1).1.saved
  unhandled-Tracks (ok p, s) k = unfold conclude in conclude-Tracks env id p s k
  unhandled-Tracks (err e, s) k = k

-- What `retry` changes in the workflow before its first checkpoint.
abbrev retried_run : WorkflowRun → String → WorkflowRun
retried_run w print = record w {
  retry_count = w.retry_count + 1;
  error_code = none;
  error_detail = none;
  input_fingerprint = some print;
}

retried_run-IsReady :
    (w : WorkflowRun) (print : String) (rows : List ReviewActionRow) (db : Db)
    → IsTracked w db
    → leb w.max_retries w.retry_count ≡ false
    → IsReady (retried_run w print) (record db { review_actions = rows })
retried_run-IsReady w print rows db t e = record {
  present = (w, t.current);
  trail = record {
    events_numbered = t.trail.events_numbered;
    events_counted = t.trail.events_counted;
    checkpoints_numbered = t.trail.checkpoints_numbered;
    checkpoints_counted = t.trail.checkpoints_counted;
  };
  retries = ground arith;
}

-- A retry, whether it is refused, ends or fails, leaves the trail of the workflow complete in the
-- committed database, and its retry count within the limit.
pub retry-Tracks :
    (py : Python) (answer : Answer) (env : Env) (w : WorkflowRun) (actor : Actor) (key : String)
    (s : Session)
    → KeepsWorkflows answer
    → IsTracked w s.db
    → Tracks w.id s.saved
    → Tracks w.id (retry py answer env w actor key s).1.saved
unfolding retry nodes
retry-Tracks py answer env w actor key s k t u =
    elim (Bool-cases (is_some (find (recorded_under w.id key) s.db.review_actions))) [
      | inl replay ↦ rw replay u
      | inr new ↦ elim (Bool-cases (can_retry w.status)) [
        | inr closed ↦ rw (new, closed) u
        | inl may ↦ elim (Bool-cases (leb w.max_retries w.retry_count)) [
          | inl spent ↦ rw (new, may, spent) u
          | inr left ↦
              rw (new, may, left)
                (continue-Tracks env w.id _ _ (λ _ _. refl)
                  (unhandled-Tracks env w.id _ (
                    drive_ready-Kept env (some actor.user_id) workflow_retry w.id _ _ _ _ _
                      (unfold nodes in nodes-Quiet py answer actor k) refl
                      (retried_run-IsReady w _ _ s.db t left) refl)))
        ]
      ]
    ]

cancel_from-Tracks :
    (env : Env) (w : WorkflowRun) (actor : Actor) (x : Result WorkflowError WorkflowState × Session)
    → IsTracked w x.1.db
    → Tracks w.id x.1.saved
    → Tracks w.id (continue x.0 (cancel_from env w actor) x.1).1.saved
unfolding cancel_from persist
cancel_from-Tracks env w actor (ok state, s) t u =
    let w₁ = next_run env w (cancelled_state state) in
    let db₁ : Db =
      next_db env w (cancelled_state state) (some actor.user_id) workflow_cancelled (some w.status)
        s.db in
    let t₁ : IsTracked w₁ db₁ =
      persist-IsTracked env w (cancelled_state state) (some actor.user_id) workflow_cancelled
        (some w.status) s.db (IsTracked-IsReady w s.db t) in
    (
      record w₁ { completed_at = some env.now },
      unfold persisted in refl,
      IsTracked-tables (record w₁ { completed_at = some env.now }) _
          (write_run (record w₁ { completed_at = some env.now }) db₁)
          (record { runs = refl; events = refl; checkpoints = refl })
          (completed-IsTracked w₁ (some env.now) db₁ t₁),
    )
cancel_from-Tracks env w actor (err e, s) t u = u

-- A cancellation leaves the trail of the workflow complete in the committed database, whether it is
-- refused or made.
pub cancel-Tracks :
    (env : Env) (w : WorkflowRun) (actor : Actor) (s : Session)
    → IsTracked w s.db
    → Tracks w.id s.saved
    → Tracks w.id (cancel env w actor s).1.saved
unfolding cancel
cancel-Tracks env w actor s t u = elim (Bool-cases (is_closed w.status)) [
  | inl closed ↦ rw closed u
  | inr live ↦
      let same = state_from_checkpoint-same env w.id w.id s in
      rw live (
        cancel_from-Tracks env w actor (state_from_checkpoint w.id s)
          (subst (λ (r : Session). IsTracked w r.db) (sym same) t)
          (subst (λ (r : Session). Tracks w.id r.saved) (sym same) u))
]
