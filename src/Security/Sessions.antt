-- ===== src/Security/Sessions.antt =====
-- security/sessions.py: `LocalAccountSessionService`. Argon2 and the token generator are parameters:
-- `verify_password` is the check of a password against a hash, and the token is an argument.
pub mod Lifecycle
mod Tests
use Prim.Native.String.{count}
use aegisclaims_ai.Prelude.{
  Bool, Option, String, [], false, find, if◌then◌else◌, is_some, leb, ltb, none, not, some, str_eq,
  update_first, update_where, ℕ, ◌&&◌, ◌++◌, ◌+◌, ◌==◌, ◌||◌, ◌∷◌,
}
use aegisclaims_ai.Prelude.Exec.{Exec, gets, or_raise, pure, raise_if, ◌>>=◌, ◌>>◌}
use aegisclaims_ai.Prelude.Python.{Python}
use aegisclaims_ai.Store.{Db, Session, User, UserSession, commit, write}

pub data IdentityError : Type 0 where
  invalid_credentials account_disabled invalid_session : IdentityError

pub record IssuedSession : Type 0 where
  pub token : String
  pub expires_at : ℕ
  pub user : User

-- A method of the service.
abbrev pub Accounts : Type 0 → Type 0
Accounts = Exec IdentityError Session

-- The configured lifetimes, in seconds.
pub record Lifetimes : Type 0 where
  pub ttl_seconds : ℕ
  pub remember_ttl_seconds : ℕ

abbrev pub email_max_length : ℕ
email_max_length = 254

abbrev pub password_max_length : ℕ
password_max_length = 256

-- `user.is_active` and `user.account_status == "active"`
abbrev pub is_enabled : User → Bool
is_enabled u = u.is_active && str_eq u.account_status "active"

abbrev pub user_of : ℕ → User → Bool
user_of id u = u.id == id

-- `_token_hash`
abbrev pub token_hash : Python → String → String
token_hash py token = py.sha256 token

abbrev pub has_hash : String → UserSession → Bool
has_hash hash r = str_eq r.token_hash hash

-- `_expired`: an instant that is not later is past.
abbrev pub expired : ℕ → ℕ → Bool
expired expires_at now = leb expires_at now

abbrev pub expires : Lifetimes → Bool → ℕ → ℕ
expires t remember now = now + (if remember then t.remember_ttl_seconds else t.ttl_seconds)

-- The row that `revoke` selects.
abbrev pub is_live : String → UserSession → Bool
is_live hash r = has_hash hash r && not (is_some r.revoked_at)

-- Whether the password is that of the account.
abbrev pub matches : (String → String → Bool) → String → User → Bool
matches verify_password password u = elim u.password_hash [
  | none ↦ false
  | some hash ↦ not (str_eq hash "") && verify_password hash password
]

module _ (py : Python) (t : Lifetimes) where
  -- `issue_for_user`
  unfoldable pub issue_for_user : ℕ → String → User → Bool → Accounts IssuedSession
  issue_for_user now token user remember = do
    raise_if (not (is_enabled user)) account_disabled
    write (λ db. record db {
      user_sessions =
          db.user_sessions
          ++ record {
            tenant_id = user.tenant_id;
            user_id = user.id;
            token_hash = token_hash py token;
            expires_at = expires t remember now;
            last_seen_at = now;
            revoked_at = none;
          }
            ∷ [];
      users = update_where (user_of user.id) (λ u. record u { last_login_at = some now }) db.users;
    })
    commit
    pure (record {
      token = token;
      expires_at = expires t remember now;
      user = record user { last_login_at = some now };
    })

  -- `authenticate`
  unfoldable pub authenticate :
      (String → String → Bool) → ℕ → String → String → String → Bool → Accounts IssuedSession
  authenticate verify_password now token email password remember = do
    let normalized_email = py.lower (py.strip email)
    raise_if
        (ltb email_max_length (count normalized_email) || ltb password_max_length (count password))
        invalid_credentials
    found ← gets (λ (s : Session). find (λ u. str_eq u.email normalized_email) s.db.users)
    user ← or_raise found invalid_credentials
    raise_if (not (matches verify_password password user)) invalid_credentials
    raise_if (not (is_enabled user)) account_disabled
    issue_for_user now token user remember

-- `record.user`
abbrev pub owner : Db → UserSession → Option User
owner db r = find (user_of r.user_id) db.users

module _ (py : Python) where
  -- `verify`
  unfoldable pub verify : ℕ → String → Accounts User
  verify now token = do
    found ← gets (λ (s : Session). find (has_hash (token_hash py token)) s.db.user_sessions)
    r ← or_raise found invalid_session
    raise_if (is_some r.revoked_at || expired r.expires_at now) invalid_session
    user ← gets (λ (s : Session). owner s.db r)
    u ← or_raise user invalid_session
    raise_if (not (is_enabled u)) invalid_session
    write (λ db. record db {
      user_sessions =
          update_first (has_hash (token_hash py token)) (λ x. record x { last_seen_at = now })
            db.user_sessions;
    })
    commit
    pure u

  -- `revoke`
  unfoldable pub revoke : ℕ → String → Accounts (Unit {0})
  revoke now token = do
    found ← gets (λ (s : Session). find (is_live (token_hash py token)) s.db.user_sessions)
    if is_some found
        then (do
          write (λ db. record db {
            user_sessions =
                update_first (is_live (token_hash py token))
                  (λ x. record x { revoked_at = some now }) db.user_sessions;
          })
          commit)
        else pure tt
