-- ===== src/Application/Tests.antt =====
-- Runs of the review queue.
use aegisclaims_ai.Prelude.{All, [], length, none, refl, ◌∷◌, ◌≡◌, ◌≤◌}
use aegisclaims_ai.Application.{review_queue, task_views}
use aegisclaims_ai.Application.Queue.{IsListed, review_queue-IsListed}
use aegisclaims_ai.Domain.{open_task}
use aegisclaims_ai.Store.{Db, ReviewTask}
use aegisclaims_ai.Store.Claims.{sort_by}
use aegisclaims_ai.Store.Reviews.{count_open, list_open}
use aegisclaims_ai.Workflow.Fixtures.{empty_db, supervisor_actor}

abbrev waiting_task : ReviewTask
waiting_task = record {
  tenant_id = 1;
  claim_id = 7;
  workflow_run_id = none;
  assigned_to_user_id = none;
  status = open_task;
  reason_code = "human_review_required";
  reason = "Review";
  version = 1;
  created_at = 10;
  updated_at = 10;
  completed_at = none;
}

abbrev queue_db : Db
queue_db = record empty_db {
  review_tasks = waiting_task ∷ record waiting_task { created_at = 5 } ∷ [];
}

-- The older task is the first page.
review_queue_pages :
    (length (review_queue queue_db supervisor_actor 1 0) ≡ 1)
    × (length (review_queue queue_db supervisor_actor 10 0) ≡ 2)
unfolding review_queue list_open task_views sort_by
review_queue_pages = (refl, refl)

review_queue-IsListed_example :
    All (IsListed queue_db supervisor_actor) (review_queue queue_db supervisor_actor 1 0)
    × (length (review_queue queue_db supervisor_actor 1 0) ≤ 1)
    × (length (review_queue queue_db supervisor_actor 1 0) ≤ count_open queue_db supervisor_actor)
review_queue-IsListed_example = review_queue-IsListed queue_db supervisor_actor 1 0
