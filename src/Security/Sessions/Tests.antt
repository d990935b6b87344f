-- ===== src/Security/Sessions/Tests.antt =====
-- Runs of the account sessions.
use aegisclaims_ai.Prelude.{
  Bool, String, [], arith, false, none, refl, some, str_eq, true, ◌∷◌, ◌≡◌,
}
use aegisclaims_ai.Domain.{claims_adjuster}
use aegisclaims_ai.Prelude.Exec.{err, ok}
use aegisclaims_ai.Security.Sessions.{
  Lifetimes, authenticate, invalid_session, issue_for_user, revoke, verify,
}
use aegisclaims_ai.Security.Sessions.Lifecycle.{
  IsAccepted, IsSignedIn, authenticate-IsSignedIn, issue-verify, revoke-verify, verify-IsAccepted,
}
use aegisclaims_ai.Store.{Session, User}
use aegisclaims_ai.Workflow.Fixtures.{empty_db, plain, saved_session}

abbrev ann : User
ann = record {
  id = 3;
  tenant_id = 1;
  subject = "ann";
  display_name = "Ann";
  email = "ann@example.test";
  password_hash = some "h";
  account_status = "active";
  is_active = true;
  last_login_at = none;
  roles = claims_adjuster ∷ [];
}

abbrev one_user : Session
one_user = saved_session (record empty_db { users = ann ∷ [] })

abbrev eight_hours : Lifetimes
eight_hours = record { ttl_seconds = 28800; remember_ttl_seconds = 2592000 }

issue-verify_example :
    let issued = issue_for_user plain eight_hours 100 "token" ann false one_user in
    (verify plain 200 "token" issued.1).0 ≡ ok (record ann { last_login_at = some 100 })
issue-verify_example =
    issue-verify plain eight_hours 100 200 "token" ann false one_user refl refl refl (omega arith)

-- The session after a sign-in.
abbrev signed_in : Session
signed_in = saved_session (record empty_db {
  users = ann ∷ [];
  user_sessions =
      record {
        tenant_id = 1;
        user_id = 3;
        token_hash = "token";
        expires_at = 300;
        last_seen_at = 100;
        revoked_at = none;
      }
      ∷ [];
})

revoke-verify_example :
    (verify plain 200 "token" (revoke plain 150 "token" signed_in).1).0 ≡ err invalid_session
revoke-verify_example = revoke-verify plain "token" 150 200 signed_in

token_accepted : (verify plain 200 "token" signed_in).0 ≡ ok ann
unfolding verify
token_accepted = refl

verify-IsAccepted_example : IsAccepted plain 200 "token" ann signed_in.db
verify-IsAccepted_example = verify-IsAccepted plain 200 "token" ann signed_in token_accepted

abbrev plain_check : String → String → Bool
plain_check hash password = str_eq hash password

signed_in_ok :
    (authenticate plain eight_hours plain_check 100 "token" "ann@example.test" "h" false one_user).0
    ≡ ok (record {
      token = "token";
      expires_at = 28900;
      user = record ann { last_login_at = some 100 };
    })
unfolding authenticate issue_for_user
signed_in_ok = refl

authenticate-IsSignedIn_example :
    IsSignedIn plain eight_hours plain_check 100 "token" "ann@example.test" "h" false
      (record {
        token = "token";
        expires_at = 28900;
        user = record ann { last_login_at = some 100 };
      })
      one_user.db
authenticate-IsSignedIn_example =
    authenticate-IsSignedIn plain eight_hours plain_check 100 "token" "ann@example.test" "h" false
      (record {
        token = "token";
        expires_at = 28900;
        user = record ann { last_login_at = some 100 };
      })
      one_user signed_in_ok
