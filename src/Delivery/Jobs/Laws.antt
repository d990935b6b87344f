-- ===== src/Delivery/Jobs/Laws.antt =====
-- What the worker relies on in a queue, what Redis documents of its commands, and that the Redis
-- queue gives the one from the other.
use mathlib.Core.Option.{some-injective}
use Prim.Native.String.{◌++◌ as concat, count}
use text.Mathlib.TextLemmas.{append_cancel_left, length-append as count-append}
use aegisclaims_ai.Prelude.{
  List, Option, String, [], ap, arith, false, map, none, refl, some, ◌++◌, ◌∙◌, ◌∷◌, ◌≡◌, ◌≢◌,
}
use aegisclaims_ai.Delivery.Jobs.{
  Job, JobQueue, JobResult, Json, Redis, loaded_job, loaded_result, redis_queue, result_key,
}

-- A first-in first-out queue, some of whose entries may not be read back as jobs, and the results
-- of its jobs: one is kept if its identifier was fresh.
pub record QueueLaws {S : Type 0} (queue : JobQueue S) (waiting_jobs : S → List (Option Job))
    (Fresh : String → S → Type 0) : Type 0 where
  pub enqueue_waiting :
      (job : Job) (s : S) → waiting_jobs (queue.enqueue job s) ≡ waiting_jobs s ++ some job ∷ []
  pub enqueue_fresh :
      (job : Job) (id : String) (s : S) → Fresh id s → Fresh id (queue.enqueue job s)
  pub dequeue_empty : (s : S) → waiting_jobs s ≡ [] → queue.dequeue s ≡ (none, s)
  pub dequeue_next :
      (x : Option Job) (xs : List (Option Job)) (s : S)
      → waiting_jobs s ≡ x ∷ xs
      → ((queue.dequeue s).0 ≡ x) × (waiting_jobs (queue.dequeue s).1 ≡ xs)
  pub dequeue_fresh : (id : String) (s : S) → Fresh id s → Fresh id (queue.dequeue s).1
  pub complete_waiting :
      (job : Job) (r : JobResult) (s : S) → waiting_jobs (queue.complete job r s) ≡ waiting_jobs s
  pub complete_fresh :
      (job : Job) (r : JobResult) (id : String) (s : S)
      → job.id ≢ id
      → Fresh id s
      → Fresh id (queue.complete job r s)
  pub complete_result :
      (job : Job) (r : JobResult) (s : S)
      → Fresh job.id s
      → queue.result job.id (queue.complete job r s) ≡ some r

-- The documented behaviour of the commands on a server where the key `name` is used for a list and
-- every other key for a text that has not expired yet.
pub record RedisLaws {T S : Type 0} (client : Redis T S) (name : String) (items : S → List T)
    : Type 0 where
  pub rpush_items : (v : T) (s : S) → items (client.rpush name v s) ≡ items s ++ v ∷ []
  pub rpush_get :
      (v : T) (k : String) (s : S)
      → k ≢ name
      → client.get k (client.rpush name v s) ≡ client.get k s
  pub blpop_empty : (s : S) → items s ≡ [] → client.blpop name s ≡ (none, s)
  pub blpop_next :
      (v : T) (vs : List T) (s : S)
      → items s ≡ v ∷ vs
      → ((client.blpop name s).0 ≡ some v) × (items (client.blpop name s).1 ≡ vs)
  pub blpop_get :
      (k : String) (s : S) → k ≢ name → client.get k (client.blpop name s).1 ≡ client.get k s
  pub set_items : (k : String) (v : T) (s : S) → k ≢ name → items (client.set_new k v s) ≡ items s
  pub set_other :
      (k k' : String) (v : T) (s : S)
      → k ≢ name
      → k' ≢ name
      → k ≢ k'
      → client.get k' (client.set_new k v s) ≡ client.get k' s
  pub set_absent :
      (k : String) (v : T) (s : S)
      → k ≢ name
      → client.get k s ≡ none
      → client.get k (client.set_new k v s) ≡ some v

-- The JSON of a job or a result is not empty and is read back as it was.
pub record JsonLaws {T : Type 0} (json : Json T) : Type 0 where
  pub job_read : (job : Job) → json.load_job (json.dump_job job) ≡ some job
  pub result_read : (r : JobResult) → json.load_result (json.dump_result r) ≡ r
  pub result_text : (r : JobResult) → json.is_blank (json.dump_result r) ≡ false

result_key≢name : (name id : String) → result_key name id ≢ name
result_key≢name name id h =
    let sizes : count (result_key name id) ≡ count name = ap count h in
    omega (arith, sizes, count-append name (concat ":result:" id), count-append ":result:" id)

result_key-injective : (name a b : String) → result_key name a ≡ result_key name b → a ≡ b
result_key-injective name a b h =
    append_cancel_left ":result:" a b
      (append_cancel_left name (concat ":result:" a) (concat ":result:" b) h)

map_append : {A B : Type 0} (f : A → B) (xs ys : List A) → map f (xs ++ ys) ≡ map f xs ++ map f ys
map_append f [] ys = refl
map_append f (x ∷ xs) ys = ap (λ zs. f x ∷ zs) (map_append f xs ys)

nothing_mapped : {A B : Type 0} (f : A → B) (xs : List A) → map f xs ≡ [] → xs ≡ []
nothing_mapped f [] h = refl
nothing_mapped f (x ∷ xs) h = cc

module _ {T S : Type 0} (client : Redis T S) (json : Json T) (name : String) (items : S → List T)
    (laws : RedisLaws client name items) (codec : JsonLaws json) where
  abbrev pub redis_jobs : S → List (Option Job)
  redis_jobs s = map json.load_job (items s)

  redis-enqueue :
      (job : Job) (s : S)
      → redis_jobs (client.rpush name (json.dump_job job) s) ≡ redis_jobs s ++ some job ∷ []
  redis-enqueue job s =
      ap (map json.load_job) (laws.rpush_items (json.dump_job job) s)
      ∙ map_append json.load_job (items s) (json.dump_job job ∷ [])
      ∙ ap (λ x. redis_jobs s ++ x ∷ []) (codec.job_read job)

  loaded-state : (p : Option T × S) → (loaded_job client json name p).1 ≡ p.1
  loaded-state (none, s) = refl
  loaded-state (some v, s) = refl

  loaded-some :
      (v : T) (p : Option T × S)
      → p.0 ≡ some v
      → (loaded_job client json name p).0 ≡ json.load_job v
  loaded-some v (none, s) h = cc
  loaded-some v (some w, s) h = ap json.load_job (some-injective w v h)

  redis-dequeue :
      (x : Option Job) (xs : List (Option Job)) (ts : List T) (s : S)
      → items s ≡ ts
      → map json.load_job ts ≡ x ∷ xs
      → ((loaded_job client json name (client.blpop name s)).0 ≡ x)
        × (redis_jobs (loaded_job client json name (client.blpop name s)).1 ≡ xs)
  redis-dequeue x xs [] s e h = cc
  redis-dequeue x xs (v ∷ vs) s e h =
      let next = laws.blpop_next v vs s e in
      (
        loaded-some v (client.blpop name s) next.0 ∙ cc h,
        ap redis_jobs (loaded-state (client.blpop name s)) ∙ ap (map json.load_job) next.1 ∙ cc h,
      )

  redis-empty :
      (s : S) → redis_jobs s ≡ [] → loaded_job client json name (client.blpop name s) ≡ (none, s)
  redis-empty s h =
      ap (loaded_job client json name) (laws.blpop_empty s (nothing_mapped json.load_job _ h))

  redis-result :
      (r : JobResult) (v : Option T)
      → v ≡ some (json.dump_result r)
      → loaded_result client json name v ≡ some r
  redis-result r v h = rw (h, codec.result_text r) (ap some (codec.result_read r))

  abbrev pub IsUnused : String → S → Type 0
  IsUnused id s = client.get (result_key name id) s ≡ none

  pub redis_queue-QueueLaws : QueueLaws (redis_queue client json name) redis_jobs IsUnused
  unfolding redis_queue
  redis_queue-QueueLaws = record {
    enqueue_waiting = redis-enqueue;
    enqueue_fresh =
        λ job id s h. laws.rpush_get _ (result_key name id) s (result_key≢name name id) ∙ h;
    dequeue_empty = redis-empty;
    dequeue_next = λ x xs s h. redis-dequeue x xs (items s) s refl h;
    dequeue_fresh = λ id s h.
        ap (client.get (result_key name id)) (loaded-state (client.blpop name s))
        ∙ laws.blpop_get (result_key name id) s (result_key≢name name id)
        ∙ h;
    complete_waiting = λ job r s. ap (map json.load_job) (
        laws.set_items (result_key name job.id) (json.dump_result r) s
          (result_key≢name name job.id));
    complete_fresh = λ job r id s other h.
        laws.set_other (result_key name job.id) (result_key name id) (json.dump_result r) s
          (result_key≢name name job.id) (result_key≢name name id)
          (λ e. other (result_key-injective name job.id id e))
        ∙ h;
    complete_result = λ job r s h. redis-result r (client.get (result_key name job.id) _) (
        laws.set_absent (result_key name job.id) (json.dump_result r) s
          (result_key≢name name job.id) h);
  }
