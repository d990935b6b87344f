-- ===== src/Workflow/Trail/Complete.antt =====
-- The trail of a workflow through `start`.
use aegisclaims_ai.Prelude.{
  Bool, Bool-cases, List, String, [], arith, count_where, find, inl, inr, none, refl, some, sym, ℕ,
  ◌++◌, ◌∙◌, ◌∷◌, ◌≡◌,
}
use aegisclaims_ai.Domain.{Actor}
use aegisclaims_ai.Prelude.Python.{Python}
use aegisclaims_ai.Retrieval.Types.{Answer}
use aegisclaims_ai.Store.{Claim, Db, Env, Session, WorkflowRun, workflow_created, workflow_stage}
use aegisclaims_ai.Workflow.Graph.{nodes}
use aegisclaims_ai.Workflow.Service.{
  checkpoint_of, event_of, fingerprint, initial_state, of_run, persist, persisted,
}
use aegisclaims_ai.Workflow.Service.Drive.{Progress, drive}
use aegisclaims_ai.Workflow.Service.Operations.{new_run, start_new}
use aegisclaims_ai.Workflow.Trail.{Numbered, sequence_of, version_of}
use aegisclaims_ai.Workflow.Trail.Loop.{KeepsWorkflows, Tracks, drive-Kept}
use aegisclaims_ai.Workflow.Trail.Operations.{attempt-Tracks, continue-Tracks, nodes-Quiet}
use aegisclaims_ai.Workflow.Trail.Steps.{IsReady, next_db, next_run, next_state, persist-IsTracked}

-- No row carries the identifier yet.
pub record IsFresh (id : ℕ) (db : Db) : Type 0 where
  pub no_run : find (of_run id) db.runs ≡ none
  pub no_events : count_where (event_of id) db.events ≡ 0
  pub no_checkpoints : count_where (checkpoint_of id) db.checkpoints ≡ 0

find-snoc :
    (w : WorkflowRun) (id : ℕ) (rows : List WorkflowRun)
    → w.id ≡ id
    → find (of_run id) rows ≡ none
    → find (of_run id) (rows ++ w ∷ []) ≡ some w
find-snoc w id [] i h = ground arith
find-snoc w id (r ∷ rows) i h = ground (arith, find-snoc w id rows)

Numbered-none {ℓ} :
    {A : Type ℓ} (mine : A → Bool) (number : A → ℕ) (k : ℕ) (xs : List A)
    → count_where mine xs ≡ 0
    → Numbered mine number k xs
Numbered-none mine number k [] h = tt
Numbered-none mine number k (x ∷ xs) h = elim (Bool-cases (mine x)) [
  | inl e ↦ absurd (omega (arith, rw e at h))
  | inr e ↦ (λ t. cc, rw e (Numbered-none mine number k xs (rw e at h)))
]

-- The row that `start` inserts, before its first checkpoint.
new_run-IsReady :
    (w : WorkflowRun) (db : Db)
    → IsFresh w.id db
    → w.checkpoint_version ≡ 0
    → w.retry_count ≡ 0
    → IsReady w (record db { runs = db.runs ++ w ∷ [] })
new_run-IsReady w db f v r = record {
  present = (w, find-snoc w w.id db.runs refl f.no_run);
  trail = record {
    events_numbered = Numbered-none (event_of w.id) sequence_of 1 db.events f.no_events;
    events_counted = f.no_events ∙ sym v;
    checkpoints_numbered =
        Numbered-none (checkpoint_of w.id) version_of 1 db.checkpoints f.no_checkpoints;
    checkpoints_counted = f.no_checkpoints ∙ sym v;
  };
  retries = omega arith;
}

-- A new workflow, whether its run ends or fails, is committed with a trail of checkpoints and
-- events numbered without a gap, as long as its checkpoint version says; this wants a retrieval
-- that leaves the workflow tables alone, and an identifier that no row carries.
pub start_new-Tracks :
    (py : Python) (answer : Answer) (env : Env) (actor : Actor) (claim : Claim)
    (task key correlation : String) (s : Session)
    → KeepsWorkflows answer
    → IsFresh env.fresh s.db
    → Tracks env.fresh (start_new py answer env actor claim task key correlation s).1.saved
unfolding start_new persist persisted new_run
start_new-Tracks py answer env actor claim task key correlation s k f =
    let w =
      new_run env actor claim task key correlation (fingerprint py s.db claim.id actor task) in
    let db₁ : Db = record s.db { runs = s.db.runs ++ w ∷ [] } in
    let state = initial_state db₁ w actor in
    let t =
      persist-IsTracked env w state (some actor.user_id) workflow_created none db₁
        (new_run-IsReady w s.db f refl refl) in
    let w₁ = next_run env w state in
    let p : Progress = record {
      run = w₁;
      state = next_state w state;
      last = some (next_state w state).current_stage;
    } in
    let db₂ : Db = next_db env w state (some actor.user_id) workflow_created none db₁ in
    let s₂ : Session = record { db = db₂; saved = db₂ } in
    continue-Tracks env env.fresh _ _ (λ _ _. refl)
      (attempt-Tracks env env.fresh
        (drive env none workflow_stage (nodes py answer actor) p (next_state w state) s₂)
        (drive-Kept env none workflow_stage env.fresh (nodes py answer actor) p (next_state w state)
          s₂ (nodes-Quiet py answer actor k) (refl, t, (w₁, refl, t))))
