-- ===== src/Security/RateLimit.antt =====
-- infrastructure/rate_limit.py: `InMemoryRateLimiter`, one check after another as its lock orders
-- them. The Redis limiter counts on a server and is not modelled. The window is at least one second,
-- as the settings guarantee.
pub mod Window
mod Tests
use Prim.Native.String.{◌++◌ as concat}
use aegisclaims_ai.Prelude.{
  Bool, List, Option, String, [], if◌then◌else◌, leb, none, some, str_eq, ℕ, ◌%◌, ◌+◌, ◌-◌, ◌/◌,
  ◌==◌, ◌∷◌,
}

-- `RateLimitDecision`
pub record RateLimitDecision : Type 0 where
  pub allowed : Bool
  pub remaining : ℕ
  pub retry_after_seconds : ℕ

-- A value of `_counts`: the bucket and the count in it.
pub record Counter : Type 0 where
  pub bucket : ℕ
  pub count : ℕ

-- `_counts`
abbrev pub Counts : Type 0
Counts = List (String × Counter)

abbrev pub lookup : String → Counts → Option Counter
lookup key [] = none
lookup key ((k, c) ∷ counts) = if str_eq k key then some c else lookup key counts

-- `self._counts[key] = c`
abbrev pub store : String → Counter → Counts → Counts
store key c [] = (key, c) ∷ []
store key c ((k, d) ∷ counts) =
    let rest = store key c counts in if str_eq k key then (key, c) ∷ counts else (k, d) ∷ rest

-- The arguments of `check` that vary between the requests of one limit, and the clock.
pub record Request : Type 0 where
  pub now : ℕ
  pub scope : String
  pub subject : String

abbrev pub key_of : Request → String
key_of r = concat r.scope (concat ":" r.subject)

-- The count that the bucket has before the request.
abbrev pub counted : ℕ → Option Counter → ℕ
counted bucket none = 0
counted bucket (some c) = if c.bucket == bucket then c.count else 0

-- `check`
unfoldable pub check : ℕ → ℕ → Request → Counts → RateLimitDecision × Counts
check limit window r counts =
    let bucket = r.now / window in
    let count = counted bucket (lookup (key_of r) counts) + 1 in
    (
      record {
        allowed = leb count limit;
        remaining = limit - count;
        retry_after_seconds = window - r.now % window;
      },
      store (key_of r) (record { bucket = bucket; count = count }) counts,
    )

-- The decisions on a sequence of requests.
unfoldable pub check_all : ℕ → ℕ → List Request → Counts → List RateLimitDecision
unfolding check
check_all limit window [] counts = []
check_all limit window (r ∷ rs) counts =
    let (d, after) = check limit window r counts in d ∷ check_all limit window rs after
