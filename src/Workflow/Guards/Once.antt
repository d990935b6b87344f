-- ===== src/Workflow/Guards/Once.antt =====
-- Reviews that follow a review of the same checkpoint.
-- The action that a review records.
use aegisclaims_ai.Prelude.{
  &&-true, ==_iff, Bool-cases, Option-cases, String, [], ap, count_where, eq_iff, find,
  find-append_last, inl, inr, none, refl, some, str_eq, sym, true, update_where, ℕ, ◌&&◌, ◌++◌,
  ◌==◌, ◌∙◌, ◌∷◌, ◌≡◌,
}
use aegisclaims_ai.Domain.{Actor}
use aegisclaims_ai.Prelude.Exec.{Result, continue, err, err≢ok, ok}
use aegisclaims_ai.Prelude.Python.{Python}
use aegisclaims_ai.Store.{
  Env, ReviewAction, ReviewActionRow, Session, WorkflowRun, WorkflowState, reviewed,
}
use aegisclaims_ai.Workflow.Graph.{option_str_eq}
use aegisclaims_ai.Workflow.Guards.{apply_review-Committed, apply_review-none, decided-unselected}
use aegisclaims_ai.Workflow.Service.{
  WorkflowError, action_name, checkpoint_and_event, evidence_changed, fingerprint,
  key_used_for_other_action, not_awaiting_review, of_run, stale_checkpoint, state_from_checkpoint,
  text_or, workflow_changed,
}
use aegisclaims_ai.Workflow.Service.Actions.{
  apply_review, decide, decided, is_awaiting, is_reviewable, recorded_under, review_from,
  same_action, submit_review,
}
use aegisclaims_ai.Workflow.Service.Operations.{WorkflowView, view}
use aegisclaims_ai.Workflow.Trail.Operations.{state_from_checkpoint-same}

abbrev decision : WorkflowRun → Actor → ReviewAction → String → ℕ → String → ReviewActionRow
decision w actor action reason expected key = record {
  workflow_run_id = w.id;
  tenant_id = w.tenant_id;
  actor_user_id = actor.user_id;
  action = reviewed action;
  reason = reason;
  expected_checkpoint_version = expected;
  idempotency_key = key;
}

review_from-Recorded :
    (w : WorkflowRun) (actor : Actor) (action : ReviewAction) (v : WorkflowView)
    (x : Result WorkflowError WorkflowState × Session)
    → (continue x.0 (review_from w actor action) x.1).0 ≡ ok v
    → (continue x.0 (review_from w actor action) x.1).1.db.review_actions ≡ x.1.db.review_actions
unfolding review_from checkpoint_and_event
review_from-Recorded w actor action v (ok state, s) h = refl
review_from-Recorded w actor action v (err e, s) h = cc

apply_review-Recorded :
    (env : Env) (w : WorkflowRun) (actor : Actor) (action : ReviewAction) (reason key : String)
    (expected : ℕ) (v : WorkflowView) (s : Session)
    → (apply_review env w actor action reason expected key s).0 ≡ ok v
    → (apply_review env w actor action reason expected key s).1.db.review_actions
      ≡ s.db.review_actions ++ decision w actor action reason expected key ∷ []
unfolding apply_review decide
apply_review-Recorded env w actor action reason key expected v s h =
    elim (Bool-cases (count_where (is_reviewable w.id expected) s.db.runs == 1)) [
      | inr lost ↦ cc
      | inl won ↦
          let runs = update_where (is_reviewable w.id expected) (decided env action) s.db.runs in
          elim (Option-cases (find (of_run w.id) runs)) [
            | inl gone ↦ cc
            | inr (w', found) ↦
                let s₁ : Session = record s {
                  db = decide env w actor action reason expected key s.db;
                } in
                let same = state_from_checkpoint-same env w.id w'.id s₁ in
                rw (won, found)
                  (review_from-Recorded w' actor action v (state_from_checkpoint w'.id s₁)
                      (rw (won, found) at h)
                    ∙ ap (λ (r : Session). r.db.review_actions) same)
          ]
    ]

-- A review under a new key that succeeds has passed the checks on the workflow that was loaded.
submit_review-applied :
    (py : Python) (env : Env) (w : WorkflowRun) (actor : Actor) (action : ReviewAction)
    (reason : String) (expected : ℕ) (key : String) (v : WorkflowView) (s : Session)
    → find (recorded_under w.id key) s.db.review_actions ≡ none
    → (submit_review py env w actor action reason expected key s).0 ≡ ok v
    → submit_review py env w actor action reason expected key s
      ≡ apply_review env w actor action reason expected key s
unfolding submit_review
submit_review-applied py env w actor action reason expected key v s new h =
    elim (Bool-cases (is_awaiting w.status)) [
      | inr no_wait ↦ absurd (err≢ok (rw (new, no_wait) at h))
      | inl waits ↦ elim (Bool-cases (w.checkpoint_version == expected)) [
        | inr stale ↦ absurd (err≢ok (rw (new, waits, stale) at h))
        | inl fresh ↦
            elim (Bool-cases (
              option_str_eq (some (fingerprint py s.db w.claim_id actor (text_or w.task "")))
                w.input_fingerprint)) [
                  | inr changed ↦ absurd (err≢ok (rw (new, waits, fresh, changed) at h))
                  | inl same ↦ rw (new, waits, fresh, same) refl
                ]
      ]
    ]

-- What a review gives that changes nothing: an error, or the view of the workflow where its key is
-- recorded with the same action and reason.
pub data ChangesNothing (py : Python) (env : Env) (w : WorkflowRun) (actor : Actor)
    (action : ReviewAction) (reason : String) (expected : ℕ) (key : String) (s : Session)
    : Type 0 where
  refused_review :
      (e : WorkflowError)
      → submit_review py env w actor action reason expected key s ≡ (err e, s)
      → ChangesNothing py env w actor action reason expected key s
  repeated_review :
      (d : ReviewActionRow)
      → find (recorded_under w.id key) s.db.review_actions ≡ some d
      → same_action d.action action ≡ true
      → d.reason ≡ reason
      → submit_review py env w actor action reason expected key s ≡ (ok (view s.db w), s)
      → ChangesNothing py env w actor action reason expected key s

module _ (py : Python) (env : Env) (w : WorkflowRun) (actor : Actor) (action : ReviewAction)
    (reason : String) (expected : ℕ) (key : String) (s : Session) where
  submit_review-repeated :
      (d : ReviewActionRow)
      → find (recorded_under w.id key) s.db.review_actions ≡ some d
      → (same_action d.action action && str_eq d.reason reason) ≡ true
      → submit_review py env w actor action reason expected key s ≡ (ok (view s.db w), s)
  unfolding submit_review
  submit_review-repeated d found alike = rw (found, alike) refl

  submit_review-ChangesNothing :
      s.db ≡ s.saved
      → count_where (is_reviewable w.id expected) s.db.runs ≡ 0
      → ChangesNothing py env w actor action reason expected key s
  unfolding submit_review
  submit_review-ChangesNothing saved none_left =
      elim (Option-cases (find (recorded_under w.id key) s.db.review_actions)) [
        | inr (d, found) ↦
            elim (Bool-cases (same_action d.action action && str_eq d.reason reason)) [
              | inl alike ↦
                  let both = &&-true (same_action d.action action) (str_eq d.reason reason) alike in
                  repeated_review d found both.0 ((eq_iff d.reason reason).0 both.1)
                    (submit_review-repeated d found alike)
              | inr other ↦ refused_review key_used_for_other_action (rw (found, other) refl)
            ]
        | inl new ↦ elim (Bool-cases (is_awaiting w.status)) [
          | inr no_wait ↦ refused_review not_awaiting_review (rw (new, no_wait) refl)
          | inl waits ↦ elim (Bool-cases (w.checkpoint_version == expected)) [
            | inr stale ↦ refused_review stale_checkpoint (rw (new, waits, stale) refl)
            | inl fresh ↦
                elim (Bool-cases (
                  option_str_eq (some (fingerprint py s.db w.claim_id actor (text_or w.task "")))
                    w.input_fingerprint)) [
                      | inr changed ↦
                          refused_review evidence_changed (rw (new, waits, fresh, changed) refl)
                      | inl same ↦ refused_review workflow_changed (
                          rw (new, waits, fresh, same)
                            (apply_review-none env w actor action reason key expected s saved
                              none_left))
                    ]
          ]
        ]
      ]

same_action_refl : (a : ReviewAction) → same_action (reviewed a) a ≡ true
same_action_refl a = (eq_iff (action_name a) (action_name a)).1 refl

-- Once a review of a workflow under a new key has been applied, no later one at the same checkpoint
-- version changes anything, whoever sends it and whichever row of the workflow it has loaded: it is
-- refused, or it repeats a recorded review, with its key, action and reason, and gets the view. The
-- applied review itself, sent again with its key, action and reason, gets the view.
pub submit_review-once :
    (py : Python) (env env' : Env) (w w' : WorkflowRun) (actor actor' : Actor)
    (action action' : ReviewAction) (reason reason' key key' : String) (expected : ℕ)
    (v : WorkflowView) (s : Session)
    → w'.id ≡ w.id
    → find (recorded_under w.id key) s.db.review_actions ≡ none
    → (submit_review py env w actor action reason expected key s).0 ≡ ok v
    → let after = (submit_review py env w actor action reason expected key s).1 in
      ChangesNothing py env' w' actor' action' reason' expected key' after
      × (submit_review py env' w' actor' action reason expected key after
          ≡ (ok (view after.db w'), after))
submit_review-once py env env' w w' actor actor' action action' reason reason' key key' expected v s
      same new h =
    let applied = submit_review-applied py env w actor action reason expected key v s new h in
    let h' : (apply_review env w actor action reason expected key s).0 ≡ ok v =
      ap (λ (x : Result WorkflowError WorkflowView × Session). x.0) (sym applied) ∙ h in
    let after = (apply_review env w actor action reason expected key s).1 in
    let done = apply_review-Committed env w actor action reason key expected v s h' in
    let row = decision w actor action reason expected key in
    let own : recorded_under w.id key row ≡ true =
      rw ((==_iff w.id w.id).1 refl, (eq_iff key key).1 refl) refl in
    let alike : (same_action row.action action && str_eq row.reason reason) ≡ true =
      rw (same_action_refl action, (eq_iff reason reason).1 refl) refl in
    let none_left : count_where (is_reviewable w'.id expected) after.db.runs ≡ 0 =
      ap (λ id. count_where (is_reviewable id expected) after.db.runs) same
      ∙ ap (count_where (is_reviewable w.id expected)) done.1.1
      ∙ decided-unselected w.id expected env action s.db.runs in
    let found : find (recorded_under w'.id key) after.db.review_actions ≡ some row =
      ap (λ id. find (recorded_under id key) after.db.review_actions) same
      ∙ ap (find (recorded_under w.id key))
          (apply_review-Recorded env w actor action reason key expected v s h')
      ∙ find-append_last (recorded_under w.id key) s.db.review_actions row new own in
    rw applied (
      submit_review-ChangesNothing py env' w' actor' action' reason' expected key' after done.1.0
          none_left,
      submit_review-repeated py env' w' actor' action reason expected key after row found alike,
    )
