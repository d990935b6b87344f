-- ===== src/Delivery/Jobs/Tests.antt =====
-- A smoke job on a small server, behind a job that the worker ignores.
use aegisclaims_ai.Prelude.{
  Bool-cases, List, Option, String, [], ap, arith, eq_iff, false, if◌then◌else◌, inl, inr, map,
  none, refl, some, str_eq, sym, true≢false, ◌++◌, ◌∷◌, ◌≡◌, ◌≢◌,
}
use aegisclaims_ai.Delivery.Jobs.{
  Job, JobQueue, JobResult, Json, Redis, completed, enqueue_smoke, job_outcome, job_result, queued,
  redis_queue, run_worker,
}
use aegisclaims_ai.Delivery.Jobs.Completed.{enqueue_smoke-completed}
use aegisclaims_ai.Delivery.Jobs.Laws.{JsonLaws, RedisLaws}
use aegisclaims_ai.Domain.{system_job_create}
use aegisclaims_ai.Prelude.Exec.{ok}
use aegisclaims_ai.Security.Authorization.{authorize, role_permissions}
use aegisclaims_ai.Workflow.Fixtures.{admin_actor}

data JsonText : Type 0 where
  job_text : Job → JsonText
  result_text_of : JobResult → JsonText

abbrev read_job : JsonText → Option Job
read_job (job_text j) = some j
read_job (result_text_of r) = none

abbrev read_result : JsonText → JobResult
read_result (job_text j) = job_outcome j
read_result (result_text_of r) = r

abbrev codec : Json JsonText
codec = record {
  dump_job = job_text;
  load_job = read_job;
  dump_result = result_text_of;
  load_result = read_result;
  is_blank = λ t. false;
}

codec-JsonLaws : JsonLaws codec
codec-JsonLaws = record { job_read = λ job. refl; result_read = λ r. refl; result_text = λ r. refl }

-- A server with one list and the texts of other keys.
record Server : Type 0 where
  pub entries : List JsonText
  pub texts : List (String × JsonText)

abbrev text_at : String → List (String × JsonText) → Option JsonText
text_at k [] = none
text_at k ((key, v) ∷ rest) = if str_eq key k then some v else text_at k rest

abbrev popped : List JsonText → Server → Option JsonText × Server
popped [] s = (none, s)
popped (v ∷ vs) s = (some v, record s { entries = vs })

abbrev set_text : Option JsonText → String → JsonText → Server → Server
set_text none k v s = record s { texts = (k, v) ∷ s.texts }
set_text (some w) k v s = s

abbrev small_client : Redis JsonText Server
small_client = record {
  rpush = λ k v s. record s { entries = s.entries ++ v ∷ [] };
  blpop = λ k s. popped s.entries s;
  set_new = λ k v s. set_text (text_at k s.texts) k v s;
  get = λ k s. text_at k s.texts;
}

popped-next :
    (v : JsonText) (vs es : List JsonText) (s : Server)
    → es ≡ v ∷ vs
    → ((popped es s).0 ≡ some v) × ((popped es s).1.entries ≡ vs)
popped-next v vs [] s h = cc
popped-next v vs (e ∷ es) s h = (cc h, cc h)

popped-texts : (es : List JsonText) (s : Server) → (popped es s).1.texts ≡ s.texts
popped-texts [] s = refl
popped-texts (e ∷ es) s = refl

set_text-entries :
    (o : Option JsonText) (k : String) (v : JsonText) (s : Server)
    → (set_text o k v s).entries ≡ s.entries
set_text-entries none k v s = refl
set_text-entries (some w) k v s = refl

set_text-other :
    (o : Option JsonText) (k k' : String) (v : JsonText) (s : Server)
    → k ≢ k'
    → text_at k' (set_text o k v s).texts ≡ text_at k' s.texts
set_text-other (some w) k k' v s h = refl
set_text-other none k k' v s h = elim (Bool-cases (str_eq k k')) [
  | inl e ↦ absurd (h ((eq_iff k k').0 e))
  | inr e ↦ rw e refl
]

small_client-RedisLaws : RedisLaws small_client "jobs" (λ s. s.entries)
small_client-RedisLaws = record {
  rpush_items = λ v s. refl;
  rpush_get = λ v k s h. refl;
  blpop_empty = λ s h. ap (λ es. popped es s) h;
  blpop_next = λ v vs s h. popped-next v vs s.entries s h;
  blpop_get = λ k s h. ap (text_at k) (popped-texts s.entries s);
  set_items = λ k v s h. set_text-entries (text_at k s.texts) k v s;
  set_other = λ k k' v s h h' other. set_text-other (text_at k s.texts) k k' v s other;
  set_absent = λ k v s h free. rw (free, (eq_iff k k).1 refl) refl;
}

abbrev older_job : Job
older_job = record { id = "j1"; kind = "platform.other"; message = none; correlation_id = "c1" }

abbrev one_waiting : Server
one_waiting = record { entries = job_text older_job ∷ []; texts = [] }

abbrev small_queue : JobQueue Server
small_queue = redis_queue small_client codec "jobs"

admin_creates : authorize admin_actor system_job_create ≡ ok tt
unfolding authorize role_permissions
admin_creates = refl

other_id : older_job.id ≢ "j2"
other_id h = absurd (true≢false (sym ((eq_iff "j1" "j2").1 h)))

enqueue_smoke-completed_example :
    let queued_result = enqueue_smoke small_queue admin_actor "j2" "hello" "c2" one_waiting in
    let drained = run_worker small_queue 2 queued_result.1 in
    (queued_result.0 ≡ ok (queued "j2"))
    × (map read_job drained.entries ≡ [])
    × (job_result small_queue admin_actor "j2" drained ≡ (
      ok (
          completed "j2"
            (record { kind = "platform.smoke"; message = some "hello"; correlation_id = "c2" })),
      drained,
    ))
enqueue_smoke-completed_example =
    enqueue_smoke-completed small_client codec "jobs" (λ s. s.entries) small_client-RedisLaws
      codec-JsonLaws admin_actor admin_actor "j2" "hello" "c2" one_waiting 2 admin_creates
      admin_creates refl (other_id, tt) (omega arith)
