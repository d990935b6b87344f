-- ===== src/Workflow/Trail/Reviews.antt =====
-- The trail of a workflow through `review`, from one that is tracked when it is loaded.
use mathlib.Core.Path.{subst}
use mathlib.Core.Option.{some-injective}
use aegisclaims_ai.Prelude.{
  ==_iff, Bool-cases, List, Option-cases, String, [], arith, count_where, find, inl, inr, not, refl,
  some, str_eq, sym, true, update_where, ℕ, ◌&&◌, ◌+◌, ◌==◌, ◌∙◌, ◌∷◌, ◌≡◌, ◌≤◌,
}
use aegisclaims_ai.Domain.{Actor, WorkflowStatus}
use aegisclaims_ai.Prelude.Exec.{Result, continue, err, ok}
use aegisclaims_ai.Prelude.Python.{Python}
use aegisclaims_ai.Store.{Env, ReviewAction, Session, WorkflowRun, WorkflowState, review}
use aegisclaims_ai.Workflow.Graph.{option_str_eq}
use aegisclaims_ai.Workflow.Service.{
  WorkflowError, checkpoint_and_event, fingerprint, of_run, state_from_checkpoint, text_or,
}
use aegisclaims_ai.Workflow.Service.Actions.{
  apply_review, decide, decided, is_awaiting, is_reviewable, recorded_under, review_from,
  reviewed_state, same_action, submit_review,
}
use aegisclaims_ai.Workflow.Trail.{IsTracked, TrailOf}
use aegisclaims_ai.Workflow.Trail.Loop.{Tracks}
use aegisclaims_ai.Workflow.Trail.Operations.{state_from_checkpoint-same}
use aegisclaims_ai.Workflow.Trail.Steps.{checkpoint_and_event-TrailOf}

reviewable_self :
    (w : WorkflowRun)
    → is_awaiting w.status ≡ true
    → is_reviewable w.id w.checkpoint_version w ≡ true
reviewable_self w a = ground arith

of_run_self :
    (env : Env) (action : ReviewAction) (w : WorkflowRun)
    → of_run w.id (decided env action w) ≡ true
unfolding decided
of_run_self env action w = ground arith

find-update_reviewable :
    (env : Env) (action : ReviewAction) (w : WorkflowRun) (rows : List WorkflowRun)
    → is_awaiting w.status ≡ true
    → find (of_run w.id) rows ≡ some w
    → find
        (of_run w.id)
        (update_where (is_reviewable w.id w.checkpoint_version) (decided env action) rows)
      ≡ some (decided env action w)
find-update_reviewable env action w [] a h = cc
find-update_reviewable env action w (r ∷ rows) a h = elim (Bool-cases (of_run w.id r)) [
  | inl e ↦
      let same : r ≡ w = some-injective r w (rw e at h) in
      subst
        (λ (x : WorkflowRun).
          find (of_run w.id)
            (update_where (is_reviewable w.id w.checkpoint_version) (decided env action) (x ∷ rows))
          ≡ some (decided env action w))
        (sym same) (rw (reviewable_self w a) (unfold decided in ground arith))
  | inr e ↦ ground (arith, find-update_reviewable env action w rows a)
]

review_from-Tracks :
    (w : WorkflowRun) (actor : Actor) (action : ReviewAction) (n : ℕ)
    (x : Result WorkflowError WorkflowState × Session)
    → find (of_run w.id) x.1.db.runs ≡ some w
    → TrailOf w.id n x.1.db
    → w.checkpoint_version ≡ n + 1
    → w.retry_count ≤ w.max_retries
    → Tracks w.id x.1.saved
    → Tracks w.id (continue x.0 (review_from w actor action) x.1).1.saved
unfolding review_from
review_from-Tracks w actor action n (ok state, s) f t v r u =
    let t₁ =
      checkpoint_and_event-TrailOf w (reviewed_state w action state) (some actor.user_id)
        (review action) (some WorkflowStatus.awaiting_human_review) n s.db t v in
    (
      w,
      refl,
      record {
        current = unfold checkpoint_and_event in f;
        trail = record {
          events_numbered = t₁.events_numbered;
          events_counted = t₁.events_counted ∙ sym v;
          checkpoints_numbered = t₁.checkpoints_numbered;
          checkpoints_counted = t₁.checkpoints_counted ∙ sym v;
        };
        retries = r;
      },
    )
review_from-Tracks w actor action n (err e, s) f t v r u = u

apply_review-Tracks :
    (env : Env) (w : WorkflowRun) (actor : Actor) (action : ReviewAction) (reason key : String)
    (s : Session)
    → is_awaiting w.status ≡ true
    → IsTracked w s.db
    → Tracks w.id s.saved
    → Tracks w.id (apply_review env w actor action reason w.checkpoint_version key s).1.saved
unfolding apply_review decide decided
apply_review-Tracks env w actor action reason key s a t u =
    elim (Bool-cases (count_where (is_reviewable w.id w.checkpoint_version) s.db.runs == 1)) [
      | inr lost ↦ rw lost u
      | inl won ↦
          let s₁ : Session = record s {
            db = decide env w actor action reason w.checkpoint_version key s.db;
          } in
          let w₁ = decided env action w in
          let same = state_from_checkpoint-same env w.id w₁.id s₁ in
          let there = find-update_reviewable env action w s.db.runs a t.current in
          rw (won, there)
            (review_from-Tracks w₁ actor action w.checkpoint_version
              (state_from_checkpoint w₁.id s₁)
              (subst (λ (r : Session). find (of_run w.id) r.db.runs ≡ some w₁) (sym same) there)
              (subst (λ (r : Session). TrailOf w.id w.checkpoint_version r.db) (sym same)
                (record {
                  events_numbered = t.trail.events_numbered;
                  events_counted = t.trail.events_counted;
                  checkpoints_numbered = t.trail.checkpoints_numbered;
                  checkpoints_counted = t.trail.checkpoints_counted;
                }))
              refl t.retries (subst (λ (r : Session). Tracks w.id r.saved) (sym same) u))
    ]

-- A review leaves the trail of the workflow complete in the committed database, whether it is a
-- repeat, refused or made.
pub submit_review-Tracks :
    (py : Python) (env : Env) (w : WorkflowRun) (actor : Actor) (action : ReviewAction)
    (reason : String) (expected : ℕ) (key : String) (s : Session)
    → IsTracked w s.db
    → Tracks w.id s.saved
    → Tracks w.id (submit_review py env w actor action reason expected key s).1.saved
unfolding submit_review
submit_review-Tracks py env w actor action reason expected key s t u =
    elim (Option-cases (find (recorded_under w.id key) s.db.review_actions)) [
      | inr (d, repeat) ↦
          rw repeat
            (elim (Bool-cases (not (same_action d.action action && str_eq d.reason reason))) [
              | inl other ↦ rw other u
              | inr alike ↦ rw alike u
            ])
      | inl new ↦ elim (Bool-cases (is_awaiting w.status)) [
        | inr no_wait ↦ rw (new, no_wait) u
        | inl waits ↦ elim (Bool-cases (w.checkpoint_version == expected)) [
          | inr stale ↦ rw (new, waits, stale) u
          | inl fresh ↦
              elim (Bool-cases (
                option_str_eq (some (fingerprint py s.db w.claim_id actor (text_or w.task "")))
                  w.input_fingerprint)) [
                    | inr changed ↦ rw (new, waits, fresh, changed) u
                    | inl same ↦
                        rw (new, waits, fresh, same)
                          (subst
                            (λ v.
                              Tracks w.id (apply_review env w actor action reason v key s).1.saved)
                            ((==_iff w.checkpoint_version expected).0 fresh)
                            (apply_review-Tracks env w actor action reason key s waits t u))
                  ]
        ]
      ]
    ]
