-- ===== src/Workflow/Guards.antt =====
-- What `review`, `cancel` and `retry` refuse: a decision that was already made, a snapshot that is
-- stale, a workflow that is closed.
pub mod Once
use mathlib.Core.Path.{subst}
use aegisclaims_ai.Prelude.{
  ==_iff, Bool-cases, List, Option-cases, String, [], ap, arith, count_where, false, find, inl, inr,
  is_some, none, not, refl, some, str_eq, sym, true, update_where, ℕ, ◌&&◌, ◌==◌, ◌∷◌, ◌≡◌,
}
use aegisclaims_ai.Domain.{Actor, WorkflowStatus}
use aegisclaims_ai.Prelude.Exec.{Result, continue, err, err≢ok, ok}
use aegisclaims_ai.Prelude.Python.{Python}
use aegisclaims_ai.Retrieval.Answering.{answer}
use aegisclaims_ai.Retrieval.Types.{Answer}
use aegisclaims_ai.Store.{Db, Env, ReviewAction, Session, WorkflowRun, WorkflowState}
use aegisclaims_ai.Workflow.Graph.{option_str_eq}
use aegisclaims_ai.Workflow.Service.{
  WorkflowError, cannot_cancel, checkpoint_and_event, fingerprint, of_run, state_from_checkpoint,
  text_or, workflow_changed,
}
use aegisclaims_ai.Workflow.Service.Actions.{
  apply_review, can_retry, cancel, decide, decided, is_awaiting, is_closed, is_reviewable,
  recorded_under, retry, review_from, same_action, submit_review,
}
use aegisclaims_ai.Workflow.Service.Operations.{WorkflowView}
use aegisclaims_ai.Workflow.Trail.Operations.{state_from_checkpoint-same}

module _ (id expected : ℕ) (env : Env) (action : ReviewAction) where
  not_reviewable_twice :
      (w : WorkflowRun)
      → is_reviewable id expected w ≡ true
      → is_reviewable id expected (decided env action w) ≡ false
  unfolding decided
  not_reviewable_twice w h = ground arith

  -- The conditional update leaves no row that it would select again.
  pub decided-unselected :
      (rows : List WorkflowRun)
      → count_where
          (is_reviewable id expected)
          (update_where (is_reviewable id expected) (decided env action) rows)
        ≡ 0
  decided-unselected [] = refl
  decided-unselected (w ∷ rows) = elim (Bool-cases (is_reviewable id expected w)) [
    | inl e ↦ rw (e, not_reviewable_twice w e) (decided-unselected rows)
    | inr e ↦ rw (e, e) (decided-unselected rows)
  ]

-- A session whose last transaction was committed, with these rows of workflows.
abbrev pub Committed : List WorkflowRun → Session → Type 0
Committed runs s = (s.db ≡ s.saved) × (s.db.runs ≡ runs)

pub review_from-Committed :
    (w : WorkflowRun) (actor : Actor) (action : ReviewAction) (v : WorkflowView)
    (x : Result WorkflowError WorkflowState × Session)
    → (continue x.0 (review_from w actor action) x.1).0 ≡ ok v
    → Committed x.1.db.runs (continue x.0 (review_from w actor action) x.1).1
unfolding review_from checkpoint_and_event
review_from-Committed w actor action v (ok state, s) h = (refl, refl)
review_from-Committed w actor action v (err e, s) h = cc

module _ (env : Env) (w : WorkflowRun) (actor : Actor) (action : ReviewAction) where
  pub apply_review-Committed :
      (reason key : String) (expected : ℕ) (v : WorkflowView) (s : Session)
      → (apply_review env w actor action reason expected key s).0 ≡ ok v
      → (count_where (is_reviewable w.id expected) s.db.runs ≡ 1)
        × Committed
            (update_where (is_reviewable w.id expected) (decided env action) s.db.runs)
            (apply_review env w actor action reason expected key s).1
  unfolding apply_review decide
  apply_review-Committed reason key expected v s h =
      elim (Bool-cases (count_where (is_reviewable w.id expected) s.db.runs == 1)) [
        | inr lost ↦ cc
        | inl won ↦
            let runs = update_where (is_reviewable w.id expected) (decided env action) s.db.runs in
            elim (Option-cases (find (of_run w.id) runs)) [
              | inl gone ↦ cc
              | inr (w', there) ↦
                  let s₁ : Session = record s {
                    db = decide env w actor action reason expected key s.db;
                  } in
                  let same = state_from_checkpoint-same env w.id w'.id s₁ in
                  (
                    (==_iff _ 1).0 won,
                    rw (won, there)
                        (subst
                          (λ (r : List WorkflowRun).
                            Committed r
                              (continue (state_from_checkpoint w'.id s₁).0
                                (review_from w' actor action) (state_from_checkpoint w'.id s₁).1).1)
                          (ap (λ (r : Session). r.db.runs) same)
                          (review_from-Committed w' actor action v (state_from_checkpoint w'.id s₁)
                            (rw (won, there) at h))),
                  )
            ]
      ]

pub apply_review-none :
    (env : Env) (w : WorkflowRun) (actor : Actor) (action : ReviewAction) (reason key : String)
    (expected : ℕ) (s : Session)
    → s.db ≡ s.saved
    → count_where (is_reviewable w.id expected) s.db.runs ≡ 0
    → apply_review env w actor action reason expected key s ≡ (err workflow_changed, s)
unfolding apply_review
apply_review-none env w actor action reason key expected s same none_left =
    rw none_left (ap (λ (db : Db). (err workflow_changed, record s { db = db })) (sym same))

closed-not_awaiting : (x : WorkflowStatus) → is_closed x ≡ true → is_awaiting x ≡ false
closed-not_awaiting WorkflowStatus.completed h = refl
closed-not_awaiting WorkflowStatus.cancelled h = refl
closed-not_awaiting x h = cc

closed-not_retried : (x : WorkflowStatus) → is_closed x ≡ true → can_retry x ≡ false
closed-not_retried WorkflowStatus.completed h = refl
closed-not_retried WorkflowStatus.cancelled h = refl
closed-not_retried x h = cc

closed_retry :
    (py : Python) (answer : Answer) (env : Env) (w : WorkflowRun) (actor : Actor) (key : String)
    (s : Session)
    → is_closed w.status ≡ true
    → (retry py answer env w actor key s).1 ≡ s
unfolding retry
closed_retry py answer env w actor key s closed =
    elim (Bool-cases (is_some (find (recorded_under w.id key) s.db.review_actions))) [
      | inl replay ↦ rw replay refl
      | inr new ↦ rw (new, closed-not_retried w.status closed) refl
    ]

closed_review :
    (py : Python) (env : Env) (w : WorkflowRun) (actor : Actor) (action : ReviewAction)
    (reason : String) (expected : ℕ) (key : String) (s : Session)
    → is_closed w.status ≡ true
    → (submit_review py env w actor action reason expected key s).1 ≡ s
unfolding submit_review
closed_review py env w actor action reason expected key s closed =
    elim (Option-cases (find (recorded_under w.id key) s.db.review_actions)) [
      | inl new ↦ rw (new, closed-not_awaiting w.status closed) refl
      | inr (d, repeat) ↦
          rw repeat
            (elim (Bool-cases (not (same_action d.action action && str_eq d.reason reason))) [
              | inl other ↦ rw other refl
              | inr alike ↦ rw alike refl
            ])
    ]

-- A closed workflow is final: no cancellation, retry or review changes the session, whether the
-- workflow has recorded the idempotency key before or not, and a cancellation is refused.
pub closed-final :
    (py : Python) (answer : Answer) (env : Env) (w : WorkflowRun) (actor : Actor)
    (action : ReviewAction) (reason : String) (expected : ℕ) (key : String) (s : Session)
    → is_closed w.status ≡ true
    → (cancel env w actor s ≡ (err cannot_cancel, s))
      × (((retry py answer env w actor key s).1 ≡ s)
          × ((submit_review py env w actor action reason expected key s).1 ≡ s))
closed-final py answer env w actor action reason expected key s closed = (
  unfold cancel in rw closed refl,
  (
    closed_retry py answer env w actor key s closed,
    closed_review py env w actor action reason expected key s closed,
  ),
)

-- What held when a new review was applied.
pub record IsAdmitted (py : Python) (w : WorkflowRun) (actor : Actor) (expected : ℕ) (db : Db)
    : Type 0 where
  pub awaiting : is_awaiting w.status ≡ true
  pub current : w.checkpoint_version ≡ expected
  pub evidence :
      option_str_eq
        (some (fingerprint py db w.claim_id actor (text_or w.task "")))
        w.input_fingerprint
      ≡ true
  pub row : count_where (is_reviewable w.id expected) db.runs ≡ 1

-- A review under a new key succeeds only for a workflow that awaits a review, at the checkpoint
-- version that the reviewer has seen, with the evidence unchanged since the workflow was started,
-- and with exactly one row at that version that still awaits its review; it is committed.
pub submit_review-IsAdmitted :
    (py : Python) (env : Env) (w : WorkflowRun) (actor : Actor) (action : ReviewAction)
    (reason : String) (expected : ℕ) (key : String) (v : WorkflowView) (s : Session)
    → find (recorded_under w.id key) s.db.review_actions ≡ none
    → (submit_review py env w actor action reason expected key s).0 ≡ ok v
    → IsAdmitted py w actor expected s.db
      × Committed
          (update_where (is_reviewable w.id expected) (decided env action) s.db.runs)
          (submit_review py env w actor action reason expected key s).1
unfolding submit_review
submit_review-IsAdmitted py env w actor action reason expected key v s new h =
    elim (Bool-cases (is_awaiting w.status)) [
      | inr no_wait ↦ absurd (err≢ok (rw (new, no_wait) at h))
      | inl waits ↦ elim (Bool-cases (w.checkpoint_version == expected)) [
        | inr stale ↦ absurd (err≢ok (rw (new, waits, stale) at h))
        | inl fresh ↦
            elim (Bool-cases (
              option_str_eq (some (fingerprint py s.db w.claim_id actor (text_or w.task "")))
                w.input_fingerprint)) [
                  | inr changed ↦ absurd (err≢ok (rw (new, waits, fresh, changed) at h))
                  | inl same ↦
                      let done =
                        apply_review-Committed env w actor action reason key expected v s
                          (rw (new, waits, fresh, same) at h) in
                      (
                        record {
                          awaiting = waits;
                          current = (==_iff w.checkpoint_version expected).0 fresh;
                          evidence = same;
                          row = done.0;
                        },
                        rw (new, waits, fresh, same) done.1,
                      )
                ]
      ]
    ]
