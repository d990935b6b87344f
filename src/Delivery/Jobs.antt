-- ===== src/Delivery/Jobs.antt =====
-- ports/queue.py and infrastructure/queue.py; delivery/worker.py; and the job routes of
-- delivery/routes.py. The routes and the worker are processes that each build their own queue; what
-- they share is the Redis server.
use Prim.Native.String.{◌++◌ as concat}
pub mod Completed
pub mod Laws
mod Tests
use aegisclaims_ai.Prelude.{
  Bool, List, Option, String, [], false, if◌then◌else◌, none, some, str_eq, suc, true, zero, ℕ,
  ◌++◌, ◌∷◌,
}
use aegisclaims_ai.Delivery.Types.{ApiError, permit}
use aegisclaims_ai.Domain.{Actor, system_job_create}
use aegisclaims_ai.Prelude.Exec.{Exec, gets, modify, pure, ◌>>=◌, ◌>>◌}

-- `Job`, with the message of its payload.
pub record Job : Type 0 where
  pub id : String
  pub kind : String
  pub message : Option String
  pub correlation_id : String

-- The dictionary that `process_job` stores.
pub record JobResult : Type 0 where
  pub kind : String
  pub message : Option String
  pub correlation_id : String

-- `JobQueue` of ports/queue.py, over the state `S` that keeps the jobs.
pub record JobQueue (S : Type 0) : Type 0 where
  pub enqueue : Job → S → S
  pub dequeue : S → Option Job × S
  pub complete : Job → JobResult → S → S
  pub result : String → S → Option JobResult

abbrev pub Jobs : Type 0 → Type 0 → Type 0
Jobs S A = Exec ApiError S A

-- `self._results[id] = result`
abbrev pub store_result : String → JobResult → List (String × JobResult) → List (String × JobResult)
store_result id r [] = (id, r) ∷ []
store_result id r ((k, v) ∷ rest) =
    let tail = store_result id r rest in if str_eq k id then (id, r) ∷ rest else (k, v) ∷ tail

abbrev pub find_result : String → List (String × JobResult) → Option JobResult
find_result id [] = none
find_result id ((k, v) ∷ rest) = if str_eq k id then some v else find_result id rest

-- The fields of `InMemoryJobQueue`. A process has its own.
pub record MemoryQueue : Type 0 where
  pub waiting : List Job
  pub results : List (String × JobResult)

-- `InMemoryJobQueue`, whose `dequeue` gives nothing once it has waited for its timeout.
unfoldable pub memory_queue : JobQueue MemoryQueue
memory_queue = record {
  enqueue = λ job q. record q { waiting = q.waiting ++ job ∷ [] };
  dequeue =
      λ q. elim q.waiting [ [] ↦ (none, q) | job ∷ rest ↦ (some job, record q { waiting = rest }) ];
  complete = λ job r q. record q { results = store_result job.id r q.results };
  result = λ id q. find_result id q.results;
}

-- The commands of the Redis client on a server in the state `S`: `blpop` gives nothing after its
-- timeout, and `set_new` is `set` with `nx`, whose value the server keeps for an hour. `T` is the
-- type of JSON texts.
pub record Redis (T S : Type 0) : Type 0 where
  pub rpush : String → T → S → S
  pub blpop : String → S → Option T × S
  pub set_new : String → T → S → S
  pub get : String → S → Option T

-- The JSON texts of jobs and results. `load_job` gives nothing where `Job(**json.loads(payload))`
-- raises; `load_result` is of a text that `dump_result` has written.
pub record Json (T : Type 0) : Type 0 where
  pub dump_job : Job → T
  pub load_job : T → Option Job
  pub dump_result : JobResult → T
  pub load_result : T → JobResult
  pub is_blank : T → Bool

-- `f"{self._queue_name}:result:{job.id}"`
abbrev pub result_key : String → String → String
result_key name id = concat name (concat ":result:" id)

module _ {T S : Type 0} (client : Redis T S) (json : Json T) (name : String) where
  abbrev pub loaded_job : Option T × S → Option Job × S
  loaded_job (none, s) = (none, s)
  loaded_job (some payload, s) = (json.load_job payload, s)

  -- `json.loads(value) if value else None`
  abbrev pub loaded_result : Option T → Option JobResult
  loaded_result none = none
  loaded_result (some value) = if json.is_blank value then none else some (json.load_result value)

  -- `RedisJobQueue`. A `dequeue` that raises and one that gives nothing are alike to the worker.
  unfoldable pub redis_queue : JobQueue S
  redis_queue = record {
    enqueue = λ job. client.rpush name (json.dump_job job);
    dequeue = λ s. loaded_job (client.blpop name s);
    complete = λ job r. client.set_new (result_key name job.id) (json.dump_result r);
    result = λ id s. loaded_result (client.get (result_key name id) s);
  }

abbrev pub job_outcome : Job → JobResult
job_outcome job = record {
  kind = job.kind;
  message = job.message;
  correlation_id = job.correlation_id;
}

module _ {S : Type 0} (queue : JobQueue S) where
  -- `process_job`
  unfoldable pub process_job : Job → S → Bool × S
  process_job job s =
      if str_eq job.kind "platform.smoke"
      then (true, queue.complete job (job_outcome job) s)
      else (false, s)

  -- What the loop of `run` does with what `dequeue` gives; the answer of `process_job` is logged.
  abbrev pub handled : Option Job × S → S
  handled (none, s) = s
  handled (some job, s) = (process_job job s).1

  -- A round of the loop of `run`.
  unfoldable pub work_once : S → S
  work_once s = handled (queue.dequeue s)

  -- The loop of `run`, for the rounds that pass until it is stopped.
  unfoldable pub run_worker : ℕ → S → S
  run_worker zero s = s
  run_worker (suc n) s = run_worker n (work_once s)

-- `JobView`
pub data JobView : Type 0 where
  queued : String → JobView
  pending : String → JobView
  completed : String → JobResult → JobView

module _ {S : Type 0} (queue : JobQueue S) where
  -- `enqueue_smoke`, with the fresh identifier of the job.
  unfoldable pub enqueue_smoke : Actor → String → String → String → Jobs S JobView
  enqueue_smoke actor id message correlation_id = do
    permit actor system_job_create
    modify (
        queue.enqueue (record {
          id = id;
          kind = "platform.smoke";
          message = some message;
          correlation_id = correlation_id;
        }))
    pure (queued id)

  -- `job_result`
  unfoldable pub job_result : Actor → String → Jobs S JobView
  job_result actor id = do
    permit actor system_job_create
    found ← gets (queue.result id)
    elim found [ none ↦ pure (pending id) | some r ↦ pure (completed id r) ]
