-- ===== src/Delivery/Types.antt =====
-- delivery/errors.py, and what the routes share: the application's state, and `enforce_limit` of
-- delivery/routes.py.
use aegisclaims_ai.Prelude.{Option, String, [], if◌then◌else◌, none, some, ℕ, ◌++◌, ◌∷◌}
use aegisclaims_ai.Domain.{Action, Actor}
use aegisclaims_ai.Prelude.Exec.{Exec, Result, err, ok, pure, raise}
use aegisclaims_ai.Prelude.Python.{Python}
use aegisclaims_ai.Security.Authorization.{AuthorizationError, authorize, not_permitted}
use aegisclaims_ai.Security.RateLimit.{Counts, RateLimitDecision, Request}
use aegisclaims_ai.Store.{AuditEvent, Db, Session}

-- What a request raises. `internal` is an exception without a handler.
pub data ApiError : Type 0 where
  forbidden : Action → ApiError
  unauthenticated account_unavailable not_found conflict invalid_document : ApiError
  rate_limited : ℕ → ApiError
  unavailable internal : ApiError

-- The status of each handler in `register_error_handlers`.
unfoldable pub status_of : ApiError → ℕ
status_of (forbidden a) = 403
status_of unauthenticated = 401
status_of account_unavailable = 403
status_of not_found = 404
status_of conflict = 409
status_of invalid_document = 422
status_of (rate_limited n) = 429
status_of unavailable = 503
status_of internal = 500

-- The database session, and the counters of the rate limiter.
pub record App : Type 0 where
  pub session : Session
  pub counts : Counts

abbrev pub Handler : Type 0 → Type 0
Handler = Exec ApiError App

-- A call of a service, with the `except` clauses that translate what it raises.
abbrev pub translated :
    {E A : Type 0} → (E → ApiError) → Result E A × Session → Counts → Result ApiError A × App
translated f (ok a, s) counts = (ok a, record { session = s; counts = counts })
translated f (err e, s) counts = (err (f e), record { session = s; counts = counts })

abbrev pub call : {E A : Type 0} → (E → ApiError) → Exec E Session A → Handler A
call f m app = translated f (m app.session) app.counts

-- `authorize`, whose exception has a handler.
abbrev pub from_authorization :
    {S : Type 0} → Result AuthorizationError (Unit {0}) → Exec ApiError S (Unit {0})
from_authorization (ok u) = pure u
from_authorization (err (not_permitted a)) = raise (forbidden a)

unfoldable pub permit : {S : Type 0} → Actor → Action → Exec ApiError S (Unit {0})
permit actor action = from_authorization (authorize actor action)

-- The limiter of the application: `none` where its `check` raises.
abbrev pub Limiter : Type 0
Limiter = ℕ → ℕ → Request → Counts → Option (RateLimitDecision × Counts)

abbrev pub after_check :
    Counts → Option (RateLimitDecision × Counts) → Session → Result ApiError (Unit {0}) × App
after_check before none s = (err unavailable, record { session = s; counts = before })
after_check before (some (d, counts)) s = (
  if d.allowed then ok tt else err (rate_limited d.retry_after_seconds),
  record { session = s; counts = counts },
)

-- `enforce_limit`
unfoldable pub enforce_limit : Python → Limiter → ℕ → ℕ → String → String → ℕ → Handler (Unit {0})
enforce_limit py limiter now window scope subject limit app =
    after_check app.counts
      (limiter limit window (record { now = now; scope = scope; subject = py.sha256 subject })
        app.counts)
      app.session

-- `AuditRepository.append`
abbrev pub append_audit : AuditEvent → Handler (Unit {0})
append_audit e app =
    let db : Db = record app.session.db { audits = app.session.db.audits ++ e ∷ [] } in
    (ok tt, record app { session = record { db = db; saved = db } })
