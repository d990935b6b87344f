-- ===== src/Workflow/Trail.antt =====
-- The audit trail of a workflow: its checkpoints and its events are numbered 1, 2, 3, … without a
-- gap, and there are as many of each as the checkpoint version says.
pub mod Steps
pub mod Loop
pub mod Operations
pub mod Complete
pub mod Decisions
pub mod Reviews
pub mod Answers
pub mod Searches
use aegisclaims_ai.Prelude.{
  Bool, Bool-cases, List, [], arith, count_where, find, if◌then◌else◌, inl, inr, some, suc, true,
  update_where, ℕ, ◌++◌, ◌+◌, ◌∙◌, ◌∷◌, ◌≡◌, ◌≤◌,
}
use aegisclaims_ai.Store.{Db, WorkflowCheckpoint, WorkflowEvent, WorkflowRun}
use aegisclaims_ai.Workflow.Service.{checkpoint_of, event_of, of_run}

-- The rows of interest carry the numbers `k`, `k + 1`, … in order.
abbrev pub Numbered {ℓ} : {A : Type ℓ} → (A → Bool) → (A → ℕ) → ℕ → List A → Type 0
Numbered mine number k [] = Unit
Numbered mine number k (x ∷ xs) =
    (mine x ≡ true → number x ≡ k) × Numbered mine number (if mine x then suc k else k) xs

abbrev pub sequence_of : WorkflowEvent → ℕ
sequence_of e = e.sequence

abbrev pub version_of : WorkflowCheckpoint → ℕ
version_of c = c.version

pub record TrailOf (id v : ℕ) (db : Db) : Type 0 where
  pub events_numbered : Numbered (event_of id) sequence_of 1 db.events
  pub events_counted : count_where (event_of id) db.events ≡ v
  pub checkpoints_numbered : Numbered (checkpoint_of id) version_of 1 db.checkpoints
  pub checkpoints_counted : count_where (checkpoint_of id) db.checkpoints ≡ v

-- `w` is the row of its workflow, whose trail is complete, and whose retries are within bounds.
pub record IsTracked (w : WorkflowRun) (db : Db) : Type 0 where
  pub current : find (of_run w.id) db.runs ≡ some w
  pub trail : TrailOf w.id w.checkpoint_version db
  pub retries : w.retry_count ≤ w.max_retries

module _ {ℓ} {A : Type ℓ} (mine : A → Bool) (number : A → ℕ) where
  pub Numbered-snoc :
      (k : ℕ) (xs : List A) (a : A)
      → Numbered mine number k xs
      → number a ≡ k + count_where mine xs
      → Numbered mine number k (xs ++ a ∷ [])
  Numbered-snoc k [] a h e = (λ _. omega arith, tt)
  Numbered-snoc k (x ∷ xs) a h e = elim (Bool-cases (mine x)) [
    | inl m ↦ (h.0, rw m (Numbered-snoc (suc k) xs a (rw m at h.1) (rw m at e ∙ omega arith)))
    | inr m ↦ (h.0, rw m (Numbered-snoc k xs a (rw m at h.1) (rw m at e)))
  ]

pub find-update_where :
    (w w' : WorkflowRun) (id : ℕ) (rows : List WorkflowRun)
    → w'.id ≡ id
    → find (of_run id) rows ≡ some w
    → find (of_run id) (update_where (of_run id) (λ _. w') rows) ≡ some w'
find-update_where w w' id [] e h = cc
find-update_where w w' id (r ∷ rows) e h = ground (arith, find-update_where w w' id rows)
