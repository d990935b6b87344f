-- ===== src/Delivery/Middleware.antt =====
-- delivery/middleware.py: `CrossSiteRequestMiddleware`.
use aegisclaims_ai.Prelude.{
  Bool, List, Option, String, any, false, if◌then◌else◌, none, not, some, str_eq, ℕ, ◌&&◌, ◌||◌,
}

pub record HttpRequest : Type 0 where
  pub method : String
  pub session_cookie : Option String
  pub origin : Option String
  pub sec_fetch_site : Option String

abbrev pub is_safe_method : String → Bool
is_safe_method m = str_eq m "GET" || (str_eq m "HEAD" || str_eq m "OPTIONS")

-- A header or cookie that is there and not empty.
abbrev pub is_given : Option String → Bool
is_given none = false
is_given (some s) = not (str_eq s "")

-- `origin and origin not in self._allowed_origins`
abbrev pub is_foreign : List String → Option String → Bool
is_foreign allowed none = false
is_foreign allowed (some o) = not (str_eq o "") && not (any (str_eq o) allowed)

abbrev pub is_cross_site : Option String → Bool
is_cross_site none = false
is_cross_site (some s) = str_eq s "cross-site"

-- The two conditions of `dispatch`.
unfoldable pub is_rejected : List String → HttpRequest → Bool
is_rejected allowed r =
    (not (is_safe_method r.method) && is_given r.session_cookie)
    && (is_foreign allowed r.origin || is_cross_site r.sec_fetch_site)

-- `dispatch`: the status 403, or the response of what follows.
unfoldable pub dispatch :
    {S R : Type 0} → List String → (ℕ → R) → HttpRequest → (S → R × S) → S → R × S
dispatch allowed problem r call_next s =
    if is_rejected allowed r then (problem 403, s) else call_next s
