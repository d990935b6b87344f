-- ===== src/Security/Sessions/Lifecycle.antt =====
-- What a token is worth: while its session is live, and after it is revoked.
use Prim.Native.String.{count}
use mathlib.Core.Option.{some-injective}
use aegisclaims_ai.Prelude.{
  ==_iff, Bool, Bool-cases, List, Option-cases, String, [], ap, arith, eq_iff, false, find,
  find-append_last, find-updated, inl, inr, is_some, leb, ltb, none, refl, some, str_eq, sym, true,
  true≢false, update_first, ℕ, ◌<◌, ◌||◌, ◌∙◌, ◌∷◌, ◌≡◌, ◌≤◌,
}
use aegisclaims_ai.Prelude.Exec.{err, err≢ok, ok, ok-injective}
use aegisclaims_ai.Prelude.Python.{Python}
use aegisclaims_ai.Retrieval.Chunking.{later}
use aegisclaims_ai.Security.Sessions.{
  IssuedSession, Lifetimes, authenticate, email_max_length, expired, expires, has_hash,
  invalid_session, is_enabled, is_live, issue_for_user, matches, owner, password_max_length, revoke,
  token_hash, user_of, verify,
}
use aegisclaims_ai.Store.{Db, Session, User, UserSession}

revoked_first :
    (hash : String) (now : ℕ) (r : UserSession) (rows : List UserSession)
    → find
        (has_hash hash)
        (update_first (is_live hash) (λ x. record x { revoked_at = some now }) rows)
      ≡ some r
    → is_some r.revoked_at ≡ true
revoked_first hash now r [] h = cc
revoked_first hash now r (x ∷ rows) h = elim (Bool-cases (has_hash hash x)) [
  | inr other ↦ revoked_first hash now r rows (rw (other, other) at h)
  | inl mine ↦ elim (Bool-cases (is_some x.revoked_at)) [
    | inl dead ↦
        ap (λ (y : UserSession). is_some y.revoked_at)
          (sym (some-injective x r (rw (mine, dead, mine) at h)))
        ∙ dead
    | inr live ↦
        ap (λ (y : UserSession). is_some y.revoked_at)
          (sym (some-injective (record x { revoked_at = some now }) r (rw (mine, live, mine) at h)))
  ]
]

none_live :
    (hash : String) (r : UserSession) (rows : List UserSession)
    → is_some (find (is_live hash) rows) ≡ false
    → find (has_hash hash) rows ≡ some r
    → is_some r.revoked_at ≡ true
none_live hash r [] n h = cc
none_live hash r (x ∷ rows) n h = elim (Bool-cases (has_hash hash x)) [
  | inr other ↦ none_live hash r rows (rw other at n) (rw other at h)
  | inl mine ↦ elim (Bool-cases (is_some x.revoked_at)) [
    | inl dead ↦
        ap (λ (y : UserSession). is_some y.revoked_at) (sym (some-injective x r (rw mine at h)))
        ∙ dead
    | inr live ↦ absurd (true≢false (rw (mine, live) at n))
  ]
]

module _ (py : Python) (token : String) where
  verify_revoked :
      (later : ℕ) (s : Session)
      → ((r : UserSession)
          → find (has_hash (token_hash py token)) s.db.user_sessions ≡ some r
          → is_some r.revoked_at ≡ true)
      → (verify py later token s).0 ≡ err invalid_session
  unfolding verify
  verify_revoked later s h =
      elim (Option-cases (find (has_hash (token_hash py token)) s.db.user_sessions)) [
        | inl gone ↦ rw gone refl
        | inr (r, there) ↦ rw (there, h r there) refl
      ]

  -- A token that has been revoked is refused ever after.
  pub revoke-verify :
      (now later : ℕ) (s : Session)
      → (verify py later token (revoke py now token s).1).0 ≡ err invalid_session
  unfolding revoke
  revoke-verify now later s =
      elim (Bool-cases (is_some (find (is_live (token_hash py token)) s.db.user_sessions))) [
        | inl live ↦ rw live (
            verify_revoked later _
              (λ r h. revoked_first (token_hash py token) now r s.db.user_sessions h))
        | inr none_left ↦ rw none_left (
            verify_revoked later s
              (λ r h. none_live (token_hash py token) r s.db.user_sessions none_left h))
      ]

not_past : (a b : ℕ) → a < b → leb b a ≡ false
not_past a b h = ground arith

-- What held when a token was accepted.
pub record IsAccepted (py : Python) (now : ℕ) (token : String) (u : User) (db : Db) : Type 0 where
  pub session : UserSession
  pub issued : find (has_hash (token_hash py token)) db.user_sessions ≡ some session
  pub not_revoked : is_some session.revoked_at ≡ false
  pub not_expired : now < session.expires_at
  pub owned : owner db session ≡ some u
  pub enabled : is_enabled u ≡ true

-- A token is accepted only while its session exists, is not revoked and not expired, and the account
-- that owns it is enabled; that account is the one returned.
pub verify-IsAccepted :
    (py : Python) (now : ℕ) (token : String) (u : User) (s : Session)
    → (verify py now token s).0 ≡ ok u
    → IsAccepted py now token u s.db
unfolding verify
verify-IsAccepted py now token u s h =
    elim (Option-cases (find (has_hash (token_hash py token)) s.db.user_sessions)) [
      | inl gone ↦ absurd (err≢ok (rw gone at h))
      | inr (r, there) ↦ elim (Bool-cases (is_some r.revoked_at || expired r.expires_at now)) [
        | inl past ↦ absurd (err≢ok (rw (there, past) at h))
        | inr live ↦ elim (Option-cases (owner s.db r)) [
          | inl orphan ↦ absurd (err≢ok (rw (there, live, orphan) at h))
          | inr (o, owned) ↦ elim (Bool-cases (is_enabled o)) [
            | inr disabled ↦ absurd (err≢ok (rw (there, live, owned, disabled) at h))
            | inl enabled ↦
                let same : o ≡ u = ok-injective o u (rw (there, live, owned, enabled) at h) in
                record {
                  session = r;
                  issued = there;
                  not_revoked = ground arith;
                  not_expired = ground arith;
                  owned = owned ∙ ap some same;
                  enabled = ap is_enabled (sym same) ∙ enabled;
                }
          ]
        ]
      ]
    ]

-- A token that is issued to an enabled account is accepted until its session expires, and gives that
-- account, if no earlier session has its hash and the account is the first of its identifier.
pub issue-verify :
    (py : Python) (t : Lifetimes) (now later : ℕ) (token : String) (user : User) (remember : Bool)
    (s : Session)
    → find (has_hash (token_hash py token)) s.db.user_sessions ≡ none
    → find (user_of user.id) s.db.users ≡ some user
    → is_enabled user ≡ true
    → later < expires t remember now
    → let issued = issue_for_user py t now token user remember s in
      (verify py later token issued.1).0 ≡ ok (record user { last_login_at = some now })
unfolding verify issue_for_user
issue-verify py t now later token user remember s new own enabled live =
    let row : UserSession = record {
      tenant_id = user.tenant_id;
      user_id = user.id;
      token_hash = token_hash py token;
      expires_at = expires t remember now;
      last_seen_at = now;
      revoked_at = none;
    } in
    let there =
      find-append_last (has_hash (token_hash py token)) s.db.user_sessions row new
        ((eq_iff (token_hash py token) (token_hash py token)).1 refl) in
    let owned =
      find-updated (user_of user.id) (λ u. record u { last_login_at = some now }) s.db.users user
        own ((==_iff user.id user.id).1 refl) in
    rw (enabled, there, not_past later (expires t remember now) live, owned, enabled) refl

-- What held when a sign-in succeeded with this session.
pub record IsSignedIn (py : Python) (t : Lifetimes) (verify_password : String → String → Bool)
    (now : ℕ) (token email password : String) (remember : Bool) (i : IssuedSession) (db : Db)
    : Type 0 where
  pub account : User
  pub email_bounded : count (py.lower (py.strip email)) ≤ 254
  pub password_bounded : count password ≤ 256
  pub registered : find (λ u. str_eq u.email (py.lower (py.strip email))) db.users ≡ some account
  pub password_matches : matches verify_password password account ≡ true
  pub enabled : is_enabled account ≡ true
  pub token_given : i.token ≡ token
  pub expiry : i.expires_at ≡ expires t remember now

within : (a b c d : ℕ) → (ltb b a || ltb d c) ≡ false → (a ≤ b) × (c ≤ d)
within a b c d h = (ground arith, ground arith)

issue_for_user-token :
    (py : Python) (t : Lifetimes) (now : ℕ) (token : String) (user : User) (remember : Bool)
    (i : IssuedSession) (s : Session)
    → (issue_for_user py t now token user remember s).0 ≡ ok i
    → (is_enabled user ≡ true) × ((i.token ≡ token) × (i.expires_at ≡ expires t remember now))
unfolding issue_for_user
issue_for_user-token py t now token user remember i s h = elim (Bool-cases (is_enabled user)) [
  | inr disabled ↦ absurd (err≢ok (rw disabled at h))
  | inl enabled ↦
      let issued : IssuedSession = record {
        token = token;
        expires_at = expires t remember now;
        user = record user { last_login_at = some now };
      } in
      let same = ok-injective issued i (rw enabled at h) in
      (
        enabled,
        (
          ap (λ (x : IssuedSession). x.token) (sym same),
          ap (λ (x : IssuedSession). x.expires_at) (sym same),
        ),
      )
]

-- A sign-in succeeds only with an email and a password of bounded length, for an enabled account that
-- has the email and whose password hash the password matches; it gives the new token, which expires
-- after the lifetime that was asked for.
pub authenticate-IsSignedIn :
    (py : Python) (t : Lifetimes) (verify_password : String → String → Bool) (now : ℕ)
    (token email password : String) (remember : Bool) (i : IssuedSession) (s : Session)
    → (authenticate py t verify_password now token email password remember s).0 ≡ ok i
    → IsSignedIn py t verify_password now token email password remember i s.db
unfolding authenticate
authenticate-IsSignedIn py t verify_password now token email password remember i s h =
    let normalized = py.lower (py.strip email) in
    elim (Bool-cases
      (ltb email_max_length (count normalized) || ltb password_max_length (count password))) [
        | inl long ↦ absurd (err≢ok (rw long at h))
        | inr short ↦ elim (Option-cases (find (λ u. str_eq u.email normalized) s.db.users)) [
          | inl unknown ↦ absurd (err≢ok (rw (short, unknown) at h))
          | inr (u, known) ↦ elim (Bool-cases (matches verify_password password u)) [
            | inr wrong ↦ absurd (err≢ok (rw (short, known, wrong) at h))
            | inl right ↦ elim (Bool-cases (is_enabled u)) [
              | inr disabled ↦ absurd (err≢ok (rw (short, known, right, disabled) at h))
              | inl enabled ↦
                  let issued =
                    issue_for_user-token py t now token u remember i s
                      (rw (short, known, right, enabled) at h) in
                  let bounds = within (count normalized) 254 (count password) 256 short in
                  record {
                    account = u;
                    email_bounded = bounds.0;
                    password_bounded = bounds.1;
                    registered = known;
                    password_matches = right;
                    enabled = enabled;
                    token_given = issued.1.0;
                    expiry = issued.1.1;
                  }
            ]
          ]
        ]
      ]
