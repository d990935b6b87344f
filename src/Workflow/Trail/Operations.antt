-- ===== src/Workflow/Trail/Operations.antt =====
-- The trail of a workflow through the parts of the operations: the nodes, the end of a run, and the
-- handling of a failure.
use mathlib.Core.Path.{subst}
use aegisclaims_ai.Prelude.{
  All, Bool, Bool-cases, Option, any, arith, false, find, inl, inr, none, refl, some, sym, true, ℕ,
  ◌≡◌,
}
use aegisclaims_ai.Domain.{Actor}
use aegisclaims_ai.Prelude.Exec.{Exec, Result, continue, err, ok, pure, raise, ◌>>◌}
use aegisclaims_ai.Prelude.Python.{Python}
use aegisclaims_ai.Retrieval.Types.{Answer, GroundedExecution, RetrievalError}
use aegisclaims_ai.Store.{
  Db, Env, ReviewArtifact, Session, WorkflowRun, WorkflowState, workflow_failed,
}
use aegisclaims_ai.Workflow.Graph.{
  artifact, determine_review, load_claim_context, nodes, prepare_artifact, retrieve_evidence,
  validate_provenance,
}
use aegisclaims_ai.Workflow.Service.{
  Workflow, WorkflowError, artifact_of, of_run, persist, persisted, review_task_of,
  state_from_checkpoint, upsert_artifact, upsert_review_task, workflow_execution_failed, write_run,
}
use aegisclaims_ai.Workflow.Service.Drive.{Progress, conclude, settle}
use aegisclaims_ai.Workflow.Service.Operations.{failed_state, handled, mark_failed, record_failure}
use aegisclaims_ai.Workflow.Trail.{IsTracked, find-update_where}
use aegisclaims_ai.Workflow.Trail.Loop.{KeepsWorkflows, Kept, Quiet, SameWorkflows, Tracks}
use aegisclaims_ai.Workflow.Trail.Steps.{IsTracked-IsReady, next_run, persist-IsTracked}

quiet_result :
    (f : GroundedExecution → Exec RetrievalError Session WorkflowState) (before : Session)
    (x : Result RetrievalError GroundedExecution × Session)
    → ((result : GroundedExecution) (s : Session) → (f result s).1 ≡ s)
    → SameWorkflows x.1 before
    → SameWorkflows (continue x.0 f x.1).1 before
quiet_result f before (ok result, s) same h = rw (same result s) h
quiet_result f before (err e, s) same h = h

Quiet-pure : (f : WorkflowState → WorkflowState) → Quiet (λ g. pure (f g))
Quiet-pure f g s = record { runs = refl; events = refl; checkpoints = refl; saved = refl }

-- The nodes of the graph leave the workflows alone, if the retrieval does.
pub nodes-Quiet :
    (py : Python) (answer : Answer) (actor : Actor)
    → KeepsWorkflows answer
    → All Quiet (nodes py answer actor)
unfolding nodes retrieve_evidence
nodes-Quiet py answer actor k = (
  Quiet-pure load_claim_context,
  (
    λ g s.
        quiet_result _ s (answer g.claim_id actor g.task 5 s) (λ _ _. refl)
          (k.keeps g.claim_id actor g.task 5 s),
    (
      Quiet-pure validate_provenance,
      (Quiet-pure determine_review, (Quiet-pure prepare_artifact, tt)),
    ),
  ),
)

-- The tables that the trail speaks of.
pub record SameTables (after before : Db) : Type 0 where
  pub runs : after.runs ≡ before.runs
  pub events : after.events ≡ before.events
  pub checkpoints : after.checkpoints ≡ before.checkpoints

pub IsTracked-tables :
    (w : WorkflowRun) (after before : Db)
    → SameTables after before
    → IsTracked w before
    → IsTracked w after
IsTracked-tables w after before e t = record {
  current = rw e.runs t.current;
  trail = record {
    events_numbered = rw e.events t.trail.events_numbered;
    events_counted = rw e.events t.trail.events_counted;
    checkpoints_numbered = rw e.checkpoints t.trail.checkpoints_numbered;
    checkpoints_counted = rw e.checkpoints t.trail.checkpoints_counted;
  };
  retries = t.retries;
}

upsert_artifact-same :
    (w : WorkflowRun) (c : ReviewArtifact) (db : Db) → SameTables (upsert_artifact w c db) db
unfolding upsert_artifact
upsert_artifact-same w c db = elim (Bool-cases (any (artifact_of w.id) db.artifacts)) [
  | inl e ↦ rw e (record { runs = refl; events = refl; checkpoints = refl })
  | inr e ↦ rw e (record { runs = refl; events = refl; checkpoints = refl })
]

upsert_review_task-same :
    (env : Env) (w : WorkflowRun) (state : WorkflowState) (db : Db)
    → SameTables (upsert_review_task env w state db) db
unfolding upsert_review_task
upsert_review_task-same env w state db =
    elim (Bool-cases (any (review_task_of w.id) db.review_tasks)) [
      | inl e ↦ rw e (record { runs = refl; events = refl; checkpoints = refl })
      | inr e ↦ rw e (record { runs = refl; events = refl; checkpoints = refl })
    ]

-- The row of a tracked workflow may take another time of completion.
pub completed-IsTracked :
    (w : WorkflowRun) (at : Option ℕ) (db : Db)
    → IsTracked w db
    → IsTracked (record w { completed_at = at }) (write_run (record w { completed_at = at }) db)
completed-IsTracked w at db t = record {
  current = find-update_where w (record w { completed_at = at }) w.id db.runs refl t.current;
  trail = record {
    events_numbered = t.trail.events_numbered;
    events_counted = t.trail.events_counted;
    checkpoints_numbered = t.trail.checkpoints_numbered;
    checkpoints_counted = t.trail.checkpoints_counted;
  };
  retries = t.retries;
}

module _ (env : Env) (id : ℕ) where
  settle-Tracks :
      (b : Bool) (w : WorkflowRun) (state : WorkflowState) (db : Db)
      → w.id ≡ id
      → IsTracked w db
      → Tracks id (settle b env w state db).1
  unfolding settle
  settle-Tracks true w state db i t =
      (w, i, IsTracked-tables w _ db (upsert_review_task-same env w state db) t)
  settle-Tracks false w state db i t =
      (record w { completed_at = some env.now }, i, completed-IsTracked w (some env.now) db t)

  pub conclude-Tracks :
      (p : Progress) (s : Session) → Kept id (ok p, s) → Tracks id (conclude env p s).1.saved
  unfolding conclude
  conclude-Tracks p s (i, t, _) =
      settle-Tracks p.state.human_review_required p.run p.state _ i
        (IsTracked-tables p.run _ s.db (upsert_artifact-same p.run (artifact p.state) s.db) t)

  -- A step that changes nothing, and may raise, after one that left the workflow tracked.
  pub continue-Tracks :
      {A B : Type 0} (x : Result WorkflowError A × Session) (f : A → Workflow B)
      → ((a : A) (s : Session) → (f a s).1 ≡ s)
      → Tracks id x.1.saved
      → Tracks id (continue x.0 f x.1).1.saved
  continue-Tracks (ok a, s) f same h = rw (same a s) h
  continue-Tracks (err e, s) f same h = h

  fail_at :
      (e : RetrievalError) (found : Result WorkflowError WorkflowState × Session) (w : WorkflowRun)
      → w.id ≡ id
      → IsTracked w found.1.db
      → IsTracked w found.1.saved
      → Tracks id (continue found.0 (mark_failed env w e) found.1).1.saved
  unfolding mark_failed persist persisted
  fail_at e (ok state, s) w i t u = (
    next_run env w (failed_state e state),
    i,
    persist-IsTracked env w (failed_state e state) none workflow_failed (some w.status) s.db
        (IsTracked-IsReady w s.db t),
  )
  fail_at e (err x, s) w i t u = (w, i, u)

  pub state_from_checkpoint-same : (k : ℕ) (s : Session) → (state_from_checkpoint k s).1 ≡ s
  unfolding state_from_checkpoint
  state_from_checkpoint-same k s = ground arith

  record_failure-Tracks :
      (e : RetrievalError) (s : Session)
      → Tracks id s.saved
      → Tracks id (record_failure env id e s).1.saved
  unfolding record_failure
  record_failure-Tracks e s (w, i, t) =
      let there : find (of_run id) s.saved.runs ≡ some w =
        subst (λ k. find (of_run k) s.saved.runs ≡ some w) i t.current in
      let s₁ : Session = record s { db = s.saved } in
      let same = state_from_checkpoint-same id s₁ in
      rw there (
        fail_at e (state_from_checkpoint id s₁) w i
          (subst (λ (r : Session). IsTracked w r.db) (sym same) t)
          (subst (λ (r : Session). IsTracked w r.saved) (sym same) t))

  pub attempt-Tracks :
      (x : Result RetrievalError Progress × Session)
      → Kept id x
      → let y = continue x.0 (conclude env) x.1 in
        Tracks id
          (handled y.0
            (λ e. record_failure env id e >> raise workflow_execution_failed)
            y.1).1.saved
  attempt-Tracks (ok p, s) k = unfold conclude in conclude-Tracks p s k
  attempt-Tracks (err e, s) k =
      continue-Tracks (record_failure env id e s) (λ _. raise workflow_execution_failed)
        (λ _ _. refl) (record_failure-Tracks e s k)
