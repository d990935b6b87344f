-- ===== src/Workflow/Trail/Loop.antt =====
-- The loop over the graph, whatever the retrieval answers and wherever it fails.
use aegisclaims_ai.Prelude.{
  All, Bool-cases, List, Option, String, [], false, inl, inr, refl, some, ℕ, ◌∷◌, ◌≡◌,
}
use aegisclaims_ai.Domain.{Actor}
use aegisclaims_ai.Prelude.Exec.{Exec, Result, continue, err, ok}
use aegisclaims_ai.Retrieval.Types.{Answer, RetrievalError}
use aegisclaims_ai.Store.{Db, Env, EventType, Session, Stage, WorkflowRun, WorkflowState}
use aegisclaims_ai.Workflow.Graph.{Node}
use aegisclaims_ai.Workflow.Service.{persist, persisted}
use aegisclaims_ai.Workflow.Service.Drive.{Progress, drive, is_last, observe}
use aegisclaims_ai.Workflow.Trail.{IsTracked}
use aegisclaims_ai.Workflow.Trail.Steps.{IsReady, IsTracked-IsReady, next_run, persist-IsTracked}

-- A part of a request that leaves the workflows, their events and their checkpoints alone, and
-- commits nothing.
pub record SameWorkflows (after before : Session) : Type 0 where
  pub runs : after.db.runs ≡ before.db.runs
  pub events : after.db.events ≡ before.db.events
  pub checkpoints : after.db.checkpoints ≡ before.db.checkpoints
  pub saved : after.saved ≡ before.saved

-- What the workflow relies on of `GroundedAnswerService.answer`.
pub record KeepsWorkflows (answer : Answer) : Type 0 where
  pub keeps :
      (claim : ℕ) (actor : Actor) (question : String) (limit : ℕ) (s : Session)
      → SameWorkflows (answer claim actor question limit s).1 s

SameWorkflows-refl : (s : Session) → SameWorkflows s s
SameWorkflows-refl s = record { runs = refl; events = refl; checkpoints = refl; saved = refl }

IsTracked-same :
    (w : WorkflowRun) (after before : Session)
    → SameWorkflows after before
    → IsTracked w before.db
    → IsTracked w after.db
IsTracked-same w after before e t = record {
  current = rw e.runs t.current;
  trail = record {
    events_numbered = rw e.events t.trail.events_numbered;
    events_counted = rw e.events t.trail.events_counted;
    checkpoints_numbered = rw e.checkpoints t.trail.checkpoints_numbered;
    checkpoints_counted = rw e.checkpoints t.trail.checkpoints_counted;
  };
  retries = t.retries;
}

-- The database tracks the workflow of this identifier.
abbrev pub Tracks : ℕ → Db → Type 0
Tracks id db = (w : WorkflowRun) × (w.id ≡ id) × IsTracked w db

-- The loop ended at a tracked workflow, or raised; what is committed tracks it either way.
abbrev pub Kept : ℕ → Result RetrievalError Progress × Session → Type 0
Kept id (ok p, s) = (p.run.id ≡ id) × IsTracked p.run s.db × Tracks id s.saved
Kept id (err e, s) = Tracks id s.saved

module _ (id : ℕ) where
  bind-Kept :
      (x : Result RetrievalError Progress × Session)
      (f : Progress → Exec RetrievalError Session Progress)
      → Kept id x
      → ((p : Progress) (s : Session) → Kept id (ok p, s) → Kept id (f p s))
      → Kept id (continue x.0 f x.1)
  bind-Kept (ok p, s) f k h = h p s k
  bind-Kept (err e, s) f k h = k

  bind_node-Kept :
      (p : Progress) (before : Session) (x : Result RetrievalError WorkflowState × Session)
      (f : WorkflowState → Exec RetrievalError Session Progress)
      → SameWorkflows x.1 before
      → Kept id (ok p, before)
      → ((g : WorkflowState) (s : Session) → Kept id (ok p, s) → Kept id (f g s))
      → Kept id (continue x.0 f x.1)
  bind_node-Kept p before (ok g, s) f e k h =
      h g s (k.0, IsTracked-same p.run s before e k.1, rw e.saved k.2)
  bind_node-Kept p before (err x, s) f e k h = rw e.saved k.2

-- A node that leaves the workflows alone.
abbrev pub Quiet : Node → Type 0
Quiet node = (g : WorkflowState) (s : Session) → SameWorkflows (node g s).1 s

module _ (env : Env) (a : Option ℕ) (event : Stage → EventType) (id : ℕ) where
  -- A round that persists needs the workflow's row only.
  persist-Kept :
      (p : Progress) (next : WorkflowState) (s : Session)
      → p.run.id ≡ id
      → IsReady p.run s.db
      → is_last p.last next.current_stage ≡ false
      → Kept id (observe env a event p next s)
  unfolding observe persist persisted
  persist-Kept p next s i h e =
      let t =
        persist-IsTracked env p.run next a (event next.current_stage) (some p.run.status) s.db h in
      rw e (i, t, (next_run env p.run next, i, t))

  observe-Kept :
      (p : Progress) (next : WorkflowState) (s : Session)
      → Kept id (ok p, s)
      → Kept id (observe env a event p next s)
  unfolding observe
  observe-Kept p next s k = elim (Bool-cases (is_last p.last next.current_stage)) [
    | inl e ↦ rw e k
    | inr e ↦ persist-Kept p next s k.0 (IsTracked-IsReady p.run s.db k.1) e
  ]

  pub drive-Kept :
      (line : List Node) (p : Progress) (next : WorkflowState) (s : Session)
      → All Quiet line
      → Kept id (ok p, s)
      → Kept id (drive env a event line p next s)
  unfolding drive
  drive-Kept [] p next s q k = observe-Kept p next s k
  drive-Kept (node ∷ line) p next s q k =
      bind-Kept id (observe env a event p next s) _ (observe-Kept p next s k) λ p' s' k'.
        bind_node-Kept id p' s' (node next s') _ (q.0 next s') k'
          λ g s'' k''. drive-Kept line p' g s'' q.1 k''

  -- The same from a workflow whose changes are not written yet, if the first round persists.
  pub drive_ready-Kept :
      (node : Node) (line : List Node) (p : Progress) (next : WorkflowState) (s : Session)
      → All Quiet (node ∷ line)
      → p.run.id ≡ id
      → IsReady p.run s.db
      → is_last p.last next.current_stage ≡ false
      → Kept id (drive env a event (node ∷ line) p next s)
  unfolding drive
  drive_ready-Kept node line p next s q i h e =
      bind-Kept id (observe env a event p next s) _ (persist-Kept p next s i h e) λ p' s' k'.
        bind_node-Kept id p' s' (node next s') _ (q.0 next s') k'
          λ g s'' k''. drive-Kept line p' g s'' q.1 k''
