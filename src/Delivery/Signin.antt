-- ===== src/Delivery/Signin.antt =====
-- The authentication routes of delivery/routes.py, and `current_actor` of delivery/dependencies.py.
-- A response is the value of the session cookie that it sets.
pub mod SingleUse
use Prim.Native.String.{◌++◌ as concat}
use aegisclaims_ai.Prelude.{
  Bool, Option, String, [], false, find, if◌then◌else◌, is_some, leb, none, not, some, str_eq,
  update_first, ℕ, ◌&&◌, ◌++◌, ◌+◌, ◌||◌, ◌∷◌,
}
use aegisclaims_ai.Config.{AuthProvider, is_local_auth}
use aegisclaims_ai.Delivery.Types.{
  ApiError, App, Handler, Limiter, account_unavailable, append_audit, call, enforce_limit, internal,
  not_found, unauthenticated,
}
use aegisclaims_ai.Domain.{Actor}
use aegisclaims_ai.Prelude.Exec.{
  Result, err, gets, ok, or_raise, pure, raise, raise_if, ◌>>=◌, ◌>>◌,
}
use aegisclaims_ai.Prelude.Python.{Python}
use aegisclaims_ai.Security.Oidc.{
  ExternalOidcIdentity, IdentityServer, OidcError, and_then, exchange, https_endpoint, metadata,
  opaque_hash,
}
use aegisclaims_ai.Security.Sessions.{
  IdentityError, Lifetimes, account_disabled, authenticate, issue_for_user, revoke, verify,
}
use aegisclaims_ai.Store.{AuditEvent, Db, OidcLoginTransaction, User}
use aegisclaims_ai.Store.Users.{actor_from_user, get_active, get_by_subject}

-- The settings and parts that the sign-in uses, and what one request reads of its surroundings.
pub record SigninServices : Type 0 where
  pub py : Python
  pub auth_provider : AuthProvider
  pub lifetimes : Lifetimes
  pub limiter : Limiter
  pub window : ℕ
  pub auth_rate_limit : ℕ
  pub verify_password : String → String → Bool
  -- The client of OIDC, if there is one, and its issuer.
  pub oidc_client : Option IdentityServer
  pub issuer : String
  pub oidc_redirect_uri : Option String
  pub oidc_tenant_id : Option ℕ
  -- `request.client.host`, or "unknown".
  pub client_host : String
  pub correlation_id : String
  -- The token that a new session gets.
  pub token : String
  pub now : ℕ

-- `OIDCLoginMaterial`; the challenge is sent to the identity server only.
pub record LoginMaterial : Type 0 where
  pub state : String
  pub nonce : String
  pub code_verifier : String
  pub browser_binding : String

abbrev pub identity_problem : IdentityError → ApiError
identity_problem account_disabled = account_unavailable
identity_problem _ = unauthenticated

-- The row's `resource_id` is the text "self" in the code; here it is the user's identifier.
abbrev pub signin_audit : User → String → AuditEvent
signin_audit u correlation_id = record {
  tenant_id = u.tenant_id;
  actor_user_id = some u.id;
  action = "authentication.login";
  resource_type = "session";
  resource_id = u.id;
  outcome = "success";
  correlation_id = correlation_id;
}

-- The query of `oidc_callback`.
abbrev pub is_pending : String → OidcLoginTransaction → Bool
is_pending hash t = str_eq t.state_hash hash && not (is_some t.consumed_at)

-- A change of the tables, with its commit.
abbrev pub commit_write : (Db → Db) → Handler (Unit {0})
commit_write f app =
    let db = f app.session.db in (ok tt, record app { session = record { db = db; saved = db } })

abbrev pub from_oidc : {A : Type 0} → Result OidcError A → Handler A
from_oidc (ok a) = pure a
from_oidc (err e) = raise unauthenticated

-- `transaction.consumed_at = now`
unfoldable pub consume : String → ℕ → Db → Db
consume hash now db = record db {
  oidc_transactions =
      update_first (is_pending hash)
        (λ (t : OidcLoginTransaction). record t { consumed_at = some now }) db.oidc_transactions;
}

module _ (sv : SigninServices) where
  abbrev pub limited : String → Handler (Unit {0})
  limited subject =
      enforce_limit sv.py sv.limiter sv.now sv.window "authentication" subject sv.auth_rate_limit

  -- `login`
  unfoldable pub login : String → String → Bool → Handler String
  login email password remember = do
    raise_if (not (is_local_auth sv.auth_provider)) not_found
    limited (concat sv.client_host (concat ":" (sv.py.lower (sv.py.strip email))))
    issued ←
        call identity_problem (
          authenticate sv.py sv.lifetimes sv.verify_password sv.now sv.token email password
            remember)
    append_audit (signin_audit issued.user sv.correlation_id)
    pure issued.token

  -- `settings.auth_provider is not AuthProvider.OIDC or components.oidc_client is None`
  abbrev pub configured_client : Handler IdentityServer
  configured_client =
      or_raise (if is_local_auth sv.auth_provider then none else sv.oidc_client) not_found

  unfoldable pub login_transaction : LoginMaterial → String → OidcLoginTransaction
  login_transaction m redirect_uri = record {
    state_hash = opaque_hash sv.py m.state;
    nonce_hash = opaque_hash sv.py m.nonce;
    browser_binding_hash = opaque_hash sv.py m.browser_binding;
    code_verifier = m.code_verifier;
    redirect_uri = redirect_uri;
    expires_at = sv.now + 600;
    consumed_at = none;
  }

  -- The endpoint of `authorization_url`.
  unfoldable pub authorization_endpoint : IdentityServer → Result OidcError String
  authorization_endpoint client =
      and_then (metadata sv.py client sv.issuer) (λ m. https_endpoint m.authorization_endpoint)

  -- `oidc_start`: the endpoint that it redirects to, and the cookie that binds the browser.
  unfoldable pub oidc_start : LoginMaterial → Handler (String × String)
  oidc_start m = do
    client ← configured_client
    limited (concat "oidc:" sv.client_host)
    redirect_uri ← or_raise sv.oidc_redirect_uri internal
    commit_write (λ db. record db {
      oidc_transactions = db.oidc_transactions ++ login_transaction m redirect_uri ∷ [];
    })
    endpoint ← from_oidc (authorization_endpoint client)
    pure (endpoint, m.browser_binding)

  -- From the user of the external identity on.
  unfoldable pub admit : ExternalOidcIdentity → Handler String
  admit external = do
    tenant ← or_raise sv.oidc_tenant_id internal
    found ← gets (λ (app : App). get_by_subject app.session.db external.subject tenant)
    user ← or_raise found unauthenticated
    issued ← call identity_problem (issue_for_user sv.py sv.lifetimes sv.now sv.token user false)
    append_audit (signin_audit user sv.correlation_id)
    pure issued.token

  -- From the consumption of the transaction on.
  unfoldable pub redeem : IdentityServer → String → OidcLoginTransaction → Handler String
  redeem client code t = do
    commit_write (consume t.state_hash sv.now)
    external ← from_oidc (
        exchange sv.py client sv.issuer
          (record { code = code; redirect_uri = t.redirect_uri; code_verifier = t.code_verifier })
          t.nonce_hash)
    admit external

  -- `oidc_callback`, with the code, the state, and the cookie that binds the browser, or "".
  unfoldable pub oidc_callback : String → String → String → Handler String
  oidc_callback code state binding = do
    client ← configured_client
    found ← gets (λ (app : App).
        find (is_pending (opaque_hash sv.py state)) app.session.db.oidc_transactions)
    t ← or_raise found unauthenticated
    raise_if (str_eq binding "") unauthenticated
    raise_if
        (leb t.expires_at sv.now || not (str_eq t.browser_binding_hash (opaque_hash sv.py binding)))
        unauthenticated
    redeem client code t

  -- `logout`, with the value of the session cookie, or "".
  unfoldable pub logout : String → Handler (Unit {0})
  logout token =
      if str_eq token "" then pure tt else call identity_problem (revoke sv.py sv.now token)

-- `VerifiedIdentity`
pub record VerifiedIdentity : Type 0 where
  pub user_id : ℕ
  pub tenant_id : ℕ
  pub subject : String

-- `current_actor`, with the session cookie, or "", and what the identity provider makes of the bearer
-- token, if there is one and it verifies.
unfoldable pub current_actor : SigninServices → String → Option VerifiedIdentity → Handler Actor
current_actor sv cookie identity =
    if not (str_eq cookie "")
    then (do u ← call identity_problem (verify sv.py sv.now cookie); pure (actor_from_user u))
    else (do
      v ← or_raise identity unauthenticated
      found ← gets (λ (app : App). get_active app.session.db v.user_id (some v.tenant_id))
      u ← or_raise found unauthenticated
      raise_if (not (str_eq u.subject v.subject)) unauthenticated
      pure (actor_from_user u))
