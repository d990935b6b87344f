-- ===== src/Workflow/Trail/Steps.antt =====
-- Persisting a state, and the trail of its workflow.
use aegisclaims_ai.Prelude.{
  Option, arith, count_where-append, find, refl, some, ℕ, ◌+◌, ◌∙◌, ◌≡◌, ◌≤◌,
}
use aegisclaims_ai.Domain.{WorkflowStatus}
use aegisclaims_ai.Store.{Db, Env, EventType, WorkflowRun, WorkflowState}
use aegisclaims_ai.Workflow.Service.{
  checkpoint_and_event, checkpoint_of, event_of, of_run, persisted, write_run,
}
use aegisclaims_ai.Workflow.Trail.{
  IsTracked, Numbered-snoc, TrailOf, find-update_where, sequence_of, version_of,
}

-- What `_persist` returns and leaves.
abbrev pub next_state : WorkflowRun → WorkflowState → WorkflowState
next_state w state = record state { checkpoint_version = w.checkpoint_version + 1 }

abbrev pub next_run : Env → WorkflowRun → WorkflowState → WorkflowRun
next_run env w state = persisted env.now (next_state w state) w

abbrev pub next_db :
    Env → WorkflowRun → WorkflowState → Option ℕ → EventType → Option WorkflowStatus → Db → Db
next_db env w state a e p db =
    checkpoint_and_event (next_run env w state) (next_state w state) a e p
      (write_run (next_run env w state) db)

-- The row of a workflow exists, its trail is complete, and its retries are within bounds; the
-- loaded workflow may hold changes that are not written yet.
pub record IsReady (w : WorkflowRun) (db : Db) : Type 0 where
  pub present : (row : WorkflowRun) × (find (of_run w.id) db.runs ≡ some row)
  pub trail : TrailOf w.id w.checkpoint_version db
  pub retries : w.retry_count ≤ w.max_retries

pub IsTracked-IsReady : (w : WorkflowRun) (db : Db) → IsTracked w db → IsReady w db
IsTracked-IsReady w db t = record { present = (w, t.current); trail = t.trail; retries = t.retries }

pub checkpoint_and_event-TrailOf :
    (w : WorkflowRun) (state : WorkflowState) (a : Option ℕ) (e : EventType)
    (p : Option WorkflowStatus) (n : ℕ) (db : Db)
    → TrailOf w.id n db
    → w.checkpoint_version ≡ n + 1
    → TrailOf w.id (n + 1) (checkpoint_and_event w state a e p db)
unfolding checkpoint_and_event
checkpoint_and_event-TrailOf w state a e p n db t v = record {
  events_numbered =
      Numbered-snoc (event_of w.id) sequence_of 1 db.events _ t.events_numbered (omega arith);
  events_counted =
      count_where-append (event_of w.id) db.events _ ∙ ground (arith, t.events_counted);
  checkpoints_numbered =
      Numbered-snoc (checkpoint_of w.id) version_of 1 db.checkpoints _ t.checkpoints_numbered
        (omega (arith, t.checkpoints_counted));
  checkpoints_counted =
      count_where-append (checkpoint_of w.id) db.checkpoints _
      ∙ ground (arith, t.checkpoints_counted);
}

write_run-TrailOf :
    (w : WorkflowRun) (id n : ℕ) (db : Db) → TrailOf id n db → TrailOf id n (write_run w db)
write_run-TrailOf w id n db t = record {
  events_numbered = t.events_numbered;
  events_counted = t.events_counted;
  checkpoints_numbered = t.checkpoints_numbered;
  checkpoints_counted = t.checkpoints_counted;
}

-- The database after `_persist` tracks the workflow that it returns.
pub persist-IsTracked :
    (env : Env) (w : WorkflowRun) (state : WorkflowState) (a : Option ℕ) (e : EventType)
    (p : Option WorkflowStatus) (db : Db)
    → IsReady w db
    → IsTracked (next_run env w state) (next_db env w state a e p db)
unfolding persisted
persist-IsTracked env w state a e p db h = record {
  current =
      unfold checkpoint_and_event in
      find-update_where h.present.0 (next_run env w state) w.id db.runs refl h.present.1;
  trail =
      checkpoint_and_event-TrailOf (next_run env w state) (next_state w state) a e p
        w.checkpoint_version (write_run (next_run env w state) db)
        (write_run-TrailOf (next_run env w state) w.id w.checkpoint_version db h.trail) refl;
  retries = h.retries;
}
