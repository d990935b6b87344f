-- ===== src/Workflow/Starts.antt =====
-- Repeated starts, and the latest workflow of a claim.
use mathlib.Core.Path.{subst}
use mathlib.Core.Option.{some-injective}
use native.Mathlib.Nat.{le_trans}
use aegisclaims_ai.Prelude.{
  All, All-map, Bool, Bool-cases, List, Option-cases, String, [], ap, arith, false, find, inl, inr,
  is_some, ltb, none, refl, some, some≢none, sym, true, true≢false, ℕ, ◌∙◌, ◌∷◌, ◌≡◌, ◌≤◌,
}
use aegisclaims_ai.Domain.{Actor}
use aegisclaims_ai.Prelude.Exec.{err≢ok, ok, ok-injective}
use aegisclaims_ai.Prelude.Python.{Python}
use aegisclaims_ai.Retrieval.Answering.{answer}
use aegisclaims_ai.Retrieval.Types.{Answer}
use aegisclaims_ai.Store.{Db, Env, Session, WorkflowRun}
use aegisclaims_ai.Store.Claims.{get_for_actor}
use aegisclaims_ai.Workflow.Graph.{option_str_eq}
use aegisclaims_ai.Workflow.Service.Operations.{
  WorkflowView, is_current, latest, newest_run, start, started_with, view,
}

-- What a start gives when its key was used before.
pub record IsRepeat (claim_id : ℕ) (actor : Actor) (task : String) (w : WorkflowRun)
    (v : WorkflowView) (db : Db) : Type 0 where
  pub same_view : v ≡ view db w
  pub same_task : option_str_eq w.task (some task) ≡ true
  pub permitted : is_some (get_for_actor db claim_id actor) ≡ true

-- A start with a key that the claim has used before changes nothing in the session. If it succeeds,
-- it returns the view of the earlier workflow, the task is the same, and the actor may see the claim.
pub start-IsRepeat :
    (py : Python) (answer : Answer) (env : Env) (claim_id : ℕ) (actor : Actor)
    (task key correlation : String) (w : WorkflowRun) (s : Session)
    → find (started_with actor.tenant_id claim_id key) s.db.runs ≡ some w
    → ((start py answer env claim_id actor task key correlation s).1 ≡ s)
      × ((v : WorkflowView)
          → (start py answer env claim_id actor task key correlation s).0 ≡ ok v
          → IsRepeat claim_id actor task w v s.db)
unfolding start
start-IsRepeat py answer env claim_id actor task key correlation w s used =
    elim (Option-cases (get_for_actor s.db claim_id actor)) [
      | inl hidden ↦ (rw hidden refl, λ v h. absurd (err≢ok (rw hidden at h)))
      | inr (claim, seen) ↦ elim (Bool-cases (option_str_eq w.task (some task))) [
        | inr other ↦
            (rw (seen, used, other) refl, λ v h. absurd (err≢ok (rw (seen, used, other) at h)))
        | inl same ↦ (
          rw (seen, used, same) refl,
          λ v h. record {
            same_view = sym (ok-injective (view s.db w) v (rw (seen, used, same) at h));
            same_task = same;
            permitted = ap is_some seen;
          },
        )
      ]
    ]

-- A row that the query of `latest` selects, and no such row is newer.
pub record IsNewest (p : WorkflowRun → Bool) (w : WorkflowRun) (rows : List WorkflowRun)
    : Type 0 where
  pub selected : p w ≡ true
  pub newest : All (λ (r : WorkflowRun). p r ≡ true → r.created_at ≤ w.created_at) rows

newest_run-none :
    (p : WorkflowRun → Bool) (rows : List WorkflowRun)
    → newest_run p rows ≡ none
    → All (λ (r : WorkflowRun). p r ≡ false) rows
unfolding newest_run
newest_run-none p [] h = tt
newest_run-none p (r ∷ rows) h = elim (Bool-cases (p r)) [
  | inr e ↦ (e, newest_run-none p rows (rw e at h))
  | inl e ↦ elim (Option-cases (newest_run p rows)) [
    | inl n ↦ absurd (some≢none (rw (e, n) at h))
    | inr (u, n) ↦ elim (Bool-cases (ltb r.created_at u.created_at)) [
      | inl l ↦ absurd (some≢none (rw (e, n, l) at h))
      | inr l ↦ absurd (some≢none (rw (e, n, l) at h))
    ]
  ]
]

refused_row :
    (p : WorkflowRun → Bool) (n : ℕ) (r : WorkflowRun) → p r ≡ false → p r ≡ true → r.created_at ≤ n
refused_row p n r e f = absurd (true≢false (sym f ∙ e))

newest_run-IsNewest :
    (p : WorkflowRun → Bool) (w : WorkflowRun) (rows : List WorkflowRun)
    → newest_run p rows ≡ some w
    → IsNewest p w rows
unfolding newest_run
newest_run-IsNewest p w [] h = cc
newest_run-IsNewest p w (r ∷ rows) h = elim (Bool-cases (p r)) [
  | inr e ↦
      let rest = newest_run-IsNewest p w rows (rw e at h) in
      record { selected = rest.selected; newest = (refused_row p w.created_at r e, rest.newest) }
  | inl e ↦ elim (Option-cases (newest_run p rows)) [
    | inl n ↦
        subst (λ (x : WorkflowRun). IsNewest p x (r ∷ rows)) (some-injective r w (rw (e, n) at h))
          (record {
            selected = e;
            newest = (
              λ _. omega arith,
              All-map (λ (x : WorkflowRun). p x ≡ false)
                  (λ (x : WorkflowRun). p x ≡ true → x.created_at ≤ r.created_at) rows
                  (refused_row p r.created_at) (newest_run-none p rows n),
            );
          })
    | inr (u, n) ↦
        let rest = newest_run-IsNewest p u rows n in
        elim (Bool-cases (ltb r.created_at u.created_at)) [
          | inl l ↦
              subst (λ (x : WorkflowRun). IsNewest p x (r ∷ rows))
                (some-injective u w (rw (e, n, l) at h))
                (record {
                  selected = rest.selected;
                  newest = (λ _. ground (arith, l), rest.newest);
                })
          | inr l ↦
              let no_newer : u.created_at ≤ r.created_at = ground (arith, l) in
              subst (λ (x : WorkflowRun). IsNewest p x (r ∷ rows))
                (some-injective r w (rw (e, n, l) at h))
                (record {
                  selected = e;
                  newest = (
                    λ _. omega arith,
                    All-map (λ (x : WorkflowRun). p x ≡ true → x.created_at ≤ u.created_at)
                        (λ (x : WorkflowRun). p x ≡ true → x.created_at ≤ r.created_at) rows
                        (λ x below f. le_trans (below f) no_newer) rest.newest,
                  );
                })
        ]
  ]
]

-- The latest workflow of a claim that is returned is the view of a workflow of this version of that
-- claim and tenant, than which none is newer; the actor may see the claim.
pub latest-IsNewest :
    (claim_id : ℕ) (actor : Actor) (v : WorkflowView) (s : Session)
    → (latest claim_id actor s).0 ≡ ok (some v)
    → (is_some (get_for_actor s.db claim_id actor) ≡ true)
      × ((w : WorkflowRun) × ((v ≡ view s.db w)
            × IsNewest (is_current claim_id actor.tenant_id) w s.db.runs))
unfolding latest
latest-IsNewest claim_id actor v s h = elim (Option-cases (get_for_actor s.db claim_id actor)) [
  | inl hidden ↦ absurd (err≢ok (rw hidden at h))
  | inr (claim, seen) ↦
      elim (Option-cases (newest_run (is_current claim_id actor.tenant_id) s.db.runs)) [
        | inl n ↦ absurd (some≢none (sym (ok-injective none (some v) (rw (seen, n) at h))))
        | inr (w, n) ↦ (
          ap is_some seen,
          (
            w,
            (
              sym (
                  some-injective (view s.db w) v
                    (ok-injective (some (view s.db w)) (some v) (rw (seen, n) at h))),
              newest_run-IsNewest (is_current claim_id actor.tenant_id) w s.db.runs n,
            ),
          ),
        )
      ]
]
