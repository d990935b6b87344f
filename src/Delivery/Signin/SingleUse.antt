-- ===== src/Delivery/Signin/SingleUse.antt =====
-- The login transactions of OIDC through a callback.
use aegisclaims_ai.Prelude.{
  &&-true, Bool, Bool-cases, List, Option, String, [], ap, arith, count_where, eq_iff, false, find,
  find-holds, if◌then◌else◌, inl, inr, is_some, leb, none, not, refl, some, str_eq, update_first, ℕ,
  ◌||◌, ◌∙◌, ◌∷◌, ◌≡◌, ◌≤◌,
}
use aegisclaims_ai.Config.{is_local_auth}
use aegisclaims_ai.Delivery.Signin.{
  SigninServices, admit, consume, from_oidc, identity_problem, is_pending, oidc_callback, redeem,
}
use aegisclaims_ai.Delivery.Types.{
  ApiError, App, Handler, internal, status_of, translated, unauthenticated,
}
use aegisclaims_ai.Prelude.Exec.{Result, continue, err, ok, or_raise}
use aegisclaims_ai.Prelude.Python.{Python}
use aegisclaims_ai.Retrieval.Chunking.{later}
use aegisclaims_ai.Security.Oidc.{
  ExternalOidcIdentity, IdentityServer, OidcError, exchange, opaque_hash,
}
use aegisclaims_ai.Security.Sessions.{is_enabled, issue_for_user}
use aegisclaims_ai.Store.{OidcLoginTransaction, Session, User}
use aegisclaims_ai.Store.Users.{get_by_subject}

abbrev pub transactions : App → List OidcLoginTransaction
transactions app = app.session.db.oidc_transactions

abbrev pub has_state : String → OidcLoginTransaction → Bool
has_state hash t = str_eq t.state_hash hash

-- A state that no transaction has is not pending.
pub absent_not_pending :
    (hash : String) (ts : List OidcLoginTransaction)
    → count_where (has_state hash) ts ≡ 0
    → find (is_pending hash) ts ≡ none
absent_not_pending hash [] h = refl
absent_not_pending hash (t ∷ ts) h = elim (Bool-cases (has_state hash t)) [
  | inl e ↦ absurd (omega (arith, rw e at h))
  | inr e ↦ rw e (absent_not_pending hash ts (rw e at h))
]

-- A state that one transaction has at most is not pending once it is consumed.
pub consumed_not_pending :
    (hash : String) (now : ℕ) (ts : List OidcLoginTransaction)
    → count_where (has_state hash) ts ≤ 1
    → find (is_pending hash) (
        update_first
          (is_pending hash)
          (λ (t : OidcLoginTransaction). record t { consumed_at = some now })
          ts)
      ≡ none
consumed_not_pending hash now [] h = refl
consumed_not_pending hash now (t ∷ ts) h = elim (Bool-cases (has_state hash t)) [
  | inl e ↦
      let rest : count_where (has_state hash) ts ≡ 0 = omega (arith, rw e at h) in
      elim (Bool-cases (is_some t.consumed_at)) [
        | inl c ↦ rw (e, c, e, c) (consumed_not_pending hash now ts (omega (arith, rest)))
        | inr c ↦ rw (e, c, e) (absent_not_pending hash ts rest)
      ]
  | inr e ↦ rw (e, e) (consumed_not_pending hash now ts (rw e at h))
]

-- The login transactions are those of before.
abbrev pub KeepsTransactions : {A : Type 0} → Result ApiError A × App → App → Type 0
KeepsTransactions x app = transactions x.1 ≡ transactions app

pub continue-KeepsTransactions :
    {A B : Type 0} (x : Result ApiError A × App) (f : A → Handler B) (app : App)
    → KeepsTransactions x app
    → ((a : A) (next : App) → KeepsTransactions (f a next) next)
    → KeepsTransactions (continue x.0 f x.1) app
continue-KeepsTransactions (ok a, t) f app h k = k a t ∙ h
continue-KeepsTransactions (err e, t) f app h k = h

pub or_raise-KeepsTransactions :
    {A : Type 0} (o : Option A) (e : ApiError) (app : App)
    → KeepsTransactions (or_raise o e app) app
or_raise-KeepsTransactions none e app = refl
or_raise-KeepsTransactions (some a) e app = refl

pub from_oidc-KeepsTransactions :
    {A : Type 0} (x : Result OidcError A) (app : App) → KeepsTransactions (from_oidc x app) app
from_oidc-KeepsTransactions (ok a) app = refl
from_oidc-KeepsTransactions (err e) app = refl

pub translated-KeepsTransactions :
    {E A : Type 0} (f : E → ApiError) (x : Result E A × Session) (app : App)
    → x.1.db.oidc_transactions ≡ transactions app
    → KeepsTransactions (translated f x app.counts) app
translated-KeepsTransactions f (ok a, s) app h = h
translated-KeepsTransactions f (err e, s) app h = h

module _ (sv : SigninServices) where
  issue_transactions :
      (u : User) (s : Session)
      → (issue_for_user sv.py sv.lifetimes sv.now sv.token u false s).1.db.oidc_transactions
        ≡ s.db.oidc_transactions
  unfolding issue_for_user
  issue_transactions u s = elim (Bool-cases (is_enabled u)) [
    | inl e ↦ rw e refl
    | inr e ↦ rw e refl
  ]

  pub admit-KeepsTransactions :
      (external : ExternalOidcIdentity) (app : App) → KeepsTransactions (admit sv external app) app
  unfolding admit
  admit-KeepsTransactions external app =
      continue-KeepsTransactions (or_raise sv.oidc_tenant_id internal app) _ app
        (or_raise-KeepsTransactions sv.oidc_tenant_id internal app)
        (λ tenant app1.
          let found = get_by_subject app1.session.db external.subject tenant in
          continue-KeepsTransactions (or_raise found unauthenticated app1) _ app1
            (or_raise-KeepsTransactions found unauthenticated app1)
            (λ u app2.
              let issued = issue_for_user sv.py sv.lifetimes sv.now sv.token u false app2.session in
              continue-KeepsTransactions (translated identity_problem issued app2.counts) _ app2
                (translated-KeepsTransactions identity_problem issued app2
                  (issue_transactions u app2.session))
                (λ i app3. refl)))

  -- Whatever the identity server answers, the transaction has been consumed.
  pub transactions-redeem :
      (client : IdentityServer) (code : String) (t : OidcLoginTransaction) (app : App)
      → transactions (redeem sv client code t app).1
        ≡ update_first
            (is_pending t.state_hash)
            (λ (x : OidcLoginTransaction). record x { consumed_at = some sv.now })
            (transactions app)
  unfolding redeem consume
  transactions-redeem client code t app =
      let answered =
        exchange sv.py client sv.issuer
          (record { code = code; redirect_uri = t.redirect_uri; code_verifier = t.code_verifier })
          t.nonce_hash in
      let db = consume t.state_hash sv.now app.session.db in
      let consumed : App = record app { session = record { db = db; saved = db } } in
      continue-KeepsTransactions (from_oidc answered consumed) (admit sv) consumed
        (from_oidc-KeepsTransactions answered consumed) admit-KeepsTransactions

  abbrev pub client_of : Option IdentityServer
  client_of = if is_local_auth sv.auth_provider then none else sv.oidc_client

  -- A callback whose state is not pending is refused.
  pub callback-refused :
      (client : IdentityServer) (code state binding : String) (app : App)
      → client_of ≡ some client
      → find (is_pending (opaque_hash sv.py state)) (transactions app) ≡ none
      → oidc_callback sv code state binding app ≡ (err unauthenticated, app)
  unfolding oidc_callback
  callback-refused client code state binding app h k = rw (h, oidc_callback, k) refl

-- What lets a callback redeem its transaction: the state is pending and no other transaction has it,
-- the browser is the one that started, and the time is not over.
pub record Redeemable (sv : SigninServices) (state binding : String) (app : App) : Type 0 where
  pub client : IdentityServer
  pub configured : client_of sv ≡ some client
  pub transaction : OidcLoginTransaction
  pub pending : find (is_pending (opaque_hash sv.py state)) (transactions app) ≡ some transaction
  pub unique : count_where (has_state (opaque_hash sv.py state)) (transactions app) ≤ 1
  pub given : str_eq binding "" ≡ false
  pub in_time :
      (leb transaction.expires_at sv.now
        || not (str_eq transaction.browser_binding_hash (opaque_hash sv.py binding)))
      ≡ false

-- A callback that may redeem its login transaction consumes it, whatever the identity server answers:
-- each later callback with the same state is refused with the status 401, whatever its code, browser
-- and time, and changes nothing.
pub callback-once :
    (sv later : SigninServices) (code code' state binding binding' : String) (app : App)
    → Redeemable sv state binding app
    → later.py ≡ sv.py
    → (client : IdentityServer) → client_of later ≡ some client
    → let after = (oidc_callback sv code state binding app).1 in
      (oidc_callback later code' state binding' after ≡ (err unauthenticated, after))
      × (status_of unauthenticated ≡ 401)
unfolding oidc_callback status_of
callback-once sv later code code' state binding binding' app r same client configured =
    let after = (oidc_callback sv code state binding app).1 in
    let redeemed : oidc_callback sv code state binding app
        ≡ redeem sv r.client code r.transaction app =
      rw (r.configured, oidc_callback, r.pending, r.given, r.in_time) refl in
    let hash = opaque_hash sv.py state in
    let stamp : OidcLoginTransaction → OidcLoginTransaction =
      λ x. record x { consumed_at = some sv.now } in
    let held =
      (&&-true (has_state hash r.transaction) (not (is_some r.transaction.consumed_at))
        (find-holds (is_pending hash) (transactions app) r.transaction r.pending)).0 in
    let of_state : r.transaction.state_hash ≡ hash =
      (eq_iff r.transaction.state_hash hash).0 held in
    let consumed : transactions after ≡ update_first (is_pending hash) stamp (transactions app) =
      ap (λ (x : Result ApiError String × App). transactions x.1) redeemed
      ∙ (transactions-redeem sv r.client code r.transaction app
          ∙ ap (λ (h : String). update_first (is_pending h) stamp (transactions app)) of_state) in
    let gone : find (is_pending (opaque_hash later.py state)) (transactions after) ≡ none =
      ap (λ (p : Python). find (is_pending (opaque_hash p state)) (transactions after)) same
      ∙ (ap (find (is_pending hash)) consumed
          ∙ consumed_not_pending hash sv.now (transactions app) r.unique) in
    (callback-refused later client code' state binding' after configured gone, refl)
