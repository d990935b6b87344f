-- ===== src/Workflow/Service/Drive.antt =====
-- The loop `for next_state in graph.stream(state)` of `start` and `retry`: the graph yields its
-- input and then the state after each node, and a state in a new stage is persisted.
use aegisclaims_ai.Prelude.{
  Bool, List, Option, [], false, if◌then◌else◌, none, some, str_eq, true, ℕ, ◌∷◌,
}
use aegisclaims_ai.Prelude.Exec.{Exec, gets, pure, ◌>>=◌, ◌>>◌}
use aegisclaims_ai.Retrieval.Types.{RetrievalError}
use aegisclaims_ai.Store.{
  Db, Env, EventType, Session, Stage, WorkflowRun, WorkflowState, commit, write,
}
use aegisclaims_ai.Workflow.Graph.{Node, artifact}
use aegisclaims_ai.Workflow.Service.{
  persist, stage_name, upsert_artifact, upsert_review_task, write_run,
}

-- `next_state["current_stage"] == last_stage`
abbrev pub stage_eq : Stage → Stage → Bool
stage_eq a b = str_eq (stage_name a) (stage_name b)

abbrev pub is_last : Option Stage → Stage → Bool
is_last none s = false
is_last (some t) s = stage_eq s t

-- The loop's variables `workflow`, `state` and `last_stage`.
pub record Progress : Type 0 where
  pub run : WorkflowRun
  pub state : WorkflowState
  pub last : Option Stage

-- One round of the loop. `actor_id` and `event` are what `start` and `retry` pass to `_persist`.
module _ (env : Env) (actor_id : Option ℕ) (event : Stage → EventType) where
  unfoldable pub observe : Progress → WorkflowState → Exec RetrievalError Session Progress
  observe p next = if is_last p.last next.current_stage then pure p else (do
    (w, state) ← persist env p.run next actor_id (event next.current_stage) (some p.run.status)
    pure (record { run = w; state = state; last = some state.current_stage }))

  unfoldable pub drive : List Node → Progress → WorkflowState → Exec RetrievalError Session Progress
  drive [] p next = observe p next
  drive (node ∷ rest) p next = do p' ← observe p next; next' ← node next; drive rest p' next'

-- What follows the loop: a review task, or the time of completion.
unfoldable pub settle : Bool → Env → WorkflowRun → WorkflowState → Db → WorkflowRun × Db
settle true env w state db = (w, upsert_review_task env w state db)
settle false env w state db =
    let w' = record w { completed_at = some env.now } in (w', write_run w' db)

-- The end of `start` and of `retry`: the artifact, what the review needs, and the commit.
unfoldable pub conclude : Env → Progress → Exec RetrievalError Session WorkflowRun
conclude env p = do
  write (upsert_artifact p.run (artifact p.state))
  settled ← gets (λ (s : Session). settle p.state.human_review_required env p.run p.state s.db)
  write (λ _. settled.1)
  commit
  pure settled.0
