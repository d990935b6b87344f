-- ===== src/Delivery/Jobs/Completed.antt =====
-- A job that a route queues is done once the worker has had more rounds than entries were waiting.
-- Another job than that of the identifier, or an entry that is none.
use mathlib.Core.Path.{subst}
use mathlib.Core.Option.{some-injective}
use aegisclaims_ai.Prelude.{
  All, Bool-cases, List, Option, String, [], ap, arith, inl, inr, length, map, none, refl, some,
  str_eq, suc, sym, true, zero, ℕ, ◌++◌, ◌<◌, ◌∙◌, ◌∷◌, ◌≡◌, ◌≢◌,
}
use aegisclaims_ai.Delivery.Jobs.{
  Job, JobQueue, Json, Redis, completed, enqueue_smoke, handled, job_outcome, job_result,
  process_job, queued, redis_queue, result_key, run_worker, work_once,
}
use aegisclaims_ai.Delivery.Jobs.Laws.{
  IsUnused, JsonLaws, QueueLaws, RedisLaws, redis_jobs, redis_queue-QueueLaws,
}
use aegisclaims_ai.Delivery.Types.{permit}
use aegisclaims_ai.Domain.{Actor, system_job_create}
use aegisclaims_ai.Prelude.Exec.{ok}
use aegisclaims_ai.Security.Authorization.{authorize}

abbrev pub IsOther : String → Option Job → Type 0
IsOther id none = Unit {0}
IsOther id (some job) = job.id ≢ id

module _ {S : Type 0} (queue : JobQueue S) (waiting_jobs : S → List (Option Job))
    (Fresh : String → S → Type 0) (laws : QueueLaws queue waiting_jobs Fresh) where
  idle : (n : ℕ) (s : S) → waiting_jobs s ≡ [] → run_worker queue n s ≡ s
  unfolding run_worker work_once
  idle zero s h = refl
  idle (suc n) s h =
      ap (λ p. run_worker queue n (handled queue p)) (laws.dequeue_empty s h) ∙ idle n s h

  handled-waiting : (p : Option Job × S) → waiting_jobs (handled queue p) ≡ waiting_jobs p.1
  unfolding process_job
  handled-waiting (none, s) = refl
  handled-waiting (some job, s) = elim (Bool-cases (str_eq job.kind "platform.smoke")) [
    | inl e ↦ rw (handled, e) (laws.complete_waiting job (job_outcome job) s)
    | inr e ↦ rw (handled, e) refl
  ]

  handled-Fresh :
      (id : String) (p : Option Job × S)
      → IsOther id p.0
      → Fresh id p.1
      → Fresh id (handled queue p)
  unfolding process_job
  handled-Fresh id (none, s) other h = h
  handled-Fresh id (some job, s) other h = elim (Bool-cases (str_eq job.kind "platform.smoke")) [
    | inl e ↦ rw (handled, e) (laws.complete_fresh job (job_outcome job) id s other h)
    | inr e ↦ rw (handled, e) h
  ]

  handled-smoke :
      (job : Job) (p : Option Job × S)
      → p.0 ≡ some job
      → str_eq job.kind "platform.smoke" ≡ true
      → handled queue p ≡ queue.complete job (job_outcome job) p.1
  unfolding process_job
  handled-smoke job (none, s) h smoke = cc
  handled-smoke job (some k, s) h smoke =
      ap (λ j. (process_job queue j s).1) (some-injective k job h) ∙ rw smoke refl

  -- The round that takes the job.
  handled-result :
      (job : Job) (s : S)
      → str_eq job.kind "platform.smoke" ≡ true
      → waiting_jobs s ≡ some job ∷ []
      → Fresh job.id s
      → queue.result job.id (handled queue (queue.dequeue s)) ≡ some (job_outcome job)
  handled-result job s smoke h fresh =
      let next = laws.dequeue_next (some job) [] s h in
      let p = queue.dequeue s in
      ap (queue.result job.id) (handled-smoke job p next.0 smoke)
      ∙ laws.complete_result job (job_outcome job) p.1 (laws.dequeue_fresh job.id s fresh)

  run_worker-drains :
      (job : Job) (n : ℕ) (xs : List (Option Job)) (s : S)
      → str_eq job.kind "platform.smoke" ≡ true
      → waiting_jobs s ≡ xs ++ some job ∷ []
      → All (IsOther job.id) xs
      → Fresh job.id s
      → length xs < n
      → (waiting_jobs (run_worker queue n s) ≡ [])
        × (queue.result job.id (run_worker queue n s) ≡ some (job_outcome job))
  unfolding run_worker work_once
  run_worker-drains job zero xs s smoke h others fresh enough = absurd (omega (arith, enough))
  run_worker-drains job (suc n) [] s smoke h others fresh enough =
      let p = queue.dequeue s in
      let empty : waiting_jobs (handled queue p) ≡ [] =
        handled-waiting p ∙ (laws.dequeue_next (some job) [] s h).1 in
      (
        ap waiting_jobs (idle n (handled queue p) empty) ∙ empty,
        ap (queue.result job.id) (idle n (handled queue p) empty)
            ∙ handled-result job s smoke h fresh,
      )
  run_worker-drains job (suc n) (x ∷ xs) s smoke h others fresh enough =
      let p = queue.dequeue s in
      let next = laws.dequeue_next x (xs ++ some job ∷ []) s h in
      run_worker-drains job n xs (handled queue p) smoke (handled-waiting p ∙ next.1) others.1
        (handled-Fresh job.id p (subst (IsOther job.id) (sym next.0) others.0)
          (laws.dequeue_fresh job.id s fresh))
        (omega (arith, enough))

  abbrev smoke_job : String → String → String → Job
  smoke_job id message correlation_id = record {
    id = id;
    kind = "platform.smoke";
    message = some message;
    correlation_id = correlation_id;
  }

  enqueue_smoke-drains :
      (actor reader : Actor) (id message correlation_id : String) (s : S) (n : ℕ)
      → authorize actor system_job_create ≡ ok tt
      → authorize reader system_job_create ≡ ok tt
      → Fresh id s
      → All (IsOther id) (waiting_jobs s)
      → length (waiting_jobs s) < n
      → let queued_result = enqueue_smoke queue actor id message correlation_id s in
        let drained = run_worker queue n queued_result.1 in
        (queued_result.0 ≡ ok (queued id))
        × (waiting_jobs drained ≡ [])
        × (job_result queue reader id drained
            ≡ (ok (completed id (job_outcome (smoke_job id message correlation_id))), drained))
  unfolding enqueue_smoke job_result permit
  enqueue_smoke-drains actor reader id message correlation_id s n allowed may_read fresh others
        enough =
      let job = smoke_job id message correlation_id in
      let drained =
        run_worker-drains job n (waiting_jobs s) (queue.enqueue job s) refl
          (laws.enqueue_waiting job s) others (laws.enqueue_fresh job id s fresh) enough in
      rw (allowed, may_read, drained.1) (refl, drained.0, refl)

-- When an actor who may create jobs queues a smoke job in Redis under an identifier that is in no
-- result key and no waiting job, the route answers that it is queued. After more rounds of the
-- worker than entries were waiting before it, none is waiting, and the route for the result answers
-- a permitted reader that it is completed, with the job's own kind, message and correlation
-- identifier. The commands of Redis and the JSON texts behave as `RedisLaws` and `JsonLaws` say.
pub enqueue_smoke-completed :
    {T S : Type 0} (client : Redis T S) (json : Json T) (name : String) (items : S → List T)
    (laws : RedisLaws client name items) (codec : JsonLaws json) (actor reader : Actor)
    (id message correlation_id : String) (s : S) (n : ℕ)
    → authorize actor system_job_create ≡ ok tt
    → authorize reader system_job_create ≡ ok tt
    → client.get (result_key name id) s ≡ none
    → All (IsOther id) (map json.load_job (items s))
    → length (map json.load_job (items s)) < n
    → let queue = redis_queue client json name in
      let queued_result = enqueue_smoke queue actor id message correlation_id s in
      let drained = run_worker queue n queued_result.1 in
      (queued_result.0 ≡ ok (queued id))
      × (map json.load_job (items drained) ≡ [])
      × (job_result queue reader id drained ≡ (
        ok (
            completed id (record {
              kind = "platform.smoke";
              message = some message;
              correlation_id = correlation_id;
            })),
        drained,
      ))
enqueue_smoke-completed client json name items laws codec =
    enqueue_smoke-drains (redis_queue client json name)
      (redis_jobs client json name items laws codec) (IsUnused client json name items laws codec)
      (redis_queue-QueueLaws client json name items laws codec)
