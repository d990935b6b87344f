-- ===== src/Security/RateLimit/Tests.antt =====
-- Runs of the rate limiter.
use aegisclaims_ai.Prelude.{List, [], arith, refl, ℕ, ◌∷◌, ◌≡◌, ◌≤◌}
use aegisclaims_ai.Security.RateLimit.{Request, check, check_all}
use aegisclaims_ai.Security.RateLimit.Window.{allowed_in, check_all-limit}

abbrev sign_in_at : ℕ → Request
sign_in_at t = record { now = t; scope = "login"; subject = "1.2.3.4" }

abbrev four_requests : List Request
four_requests = sign_in_at 10 ∷ sign_in_at 11 ∷ sign_in_at 12 ∷ sign_in_at 70 ∷ []

check_all-limit_example :
    allowed_in "login:1.2.3.4" 60 0 four_requests (check_all 2 60 four_requests []) ≤ 2
check_all-limit_example =
    check_all-limit "login:1.2.3.4" 2 60 0 0 four_requests (omega arith)
      (omega arith, (omega arith, (omega arith, (omega arith, tt))))

two_allowed : allowed_in "login:1.2.3.4" 60 0 four_requests (check_all 2 60 four_requests []) ≡ 2
unfolding allowed_in check_all check
two_allowed = refl
