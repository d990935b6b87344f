-- ===== src/Security/Oidc.antt =====
-- security/oidc.py: the exchange of `OIDCAuthorizationCodeClient`. The calls of the identity provider
-- and the verification of an ID token are a record of parameters, where `none` is an `httpx` or JWT
-- error.
use text.Mathlib.Text.{starts_with}
use aegisclaims_ai.Prelude.{Bool, Option, String, false, if◌then◌else◌, none, some, str_eq}
use aegisclaims_ai.Prelude.Exec.{Result, err, ok}
use aegisclaims_ai.Prelude.Python.{Python}

-- What the code reads of the discovery document.
pub record Metadata : Type 0 where
  pub issuer : Option String
  pub authorization_endpoint : Option String
  pub token_endpoint : Option String
  pub jwks_uri : Option String

-- What the code reads of a verified ID token.
pub record TokenClaims : Type 0 where
  pub nonce : Option String
  pub sub : Option String
  pub email : Option String
  pub name : Option String

-- The form that is posted to the token endpoint, without the client's credentials.
pub record TokenRequest : Type 0 where
  pub code : String
  pub redirect_uri : String
  pub code_verifier : String

pub record IdentityServer : Type 0 where
  pub discover : Option Metadata
  -- The ID token of the response, if it has one.
  pub request_token : String → TokenRequest → Option (Option String)
  -- `jwt.decode` with the key that the document at the URI has for the token; `some none` where it
  -- has none.
  pub decode_token : String → String → Option (Option TokenClaims)

-- `ExternalOIDCIdentity`
pub record ExternalOidcIdentity : Type 0 where
  pub subject : String
  pub email : String
  pub display_name : String

-- The details of `IdentityError`.
pub data OidcError : Type 0 where
  discovery_failed issuer_mismatch invalid_endpoint no_id_token no_signing_key : OidcError
  validation_failed nonce_failed missing_claims : OidcError

abbrev pub opaque_hash : Python → String → String
opaque_hash py value = py.sha256 value

-- `_https_endpoint`
unfoldable pub https_endpoint : Option String → Result OidcError String
https_endpoint none = err invalid_endpoint
https_endpoint (some endpoint) =
    if starts_with endpoint "https://" then ok endpoint else err invalid_endpoint

-- A call that may raise, without a state.
abbrev pub and_then :
    {A B : Type 0} → Result OidcError A → (A → Result OidcError B) → Result OidcError B
and_then (ok a) f = f a
and_then (err e) f = err e

abbrev pub or_error : {A : Type 0} → Option A → OidcError → Result OidcError A
or_error none e = err e
or_error (some a) e = ok a

abbrev pub text_is : Option String → String → Bool
text_is none t = false
text_is (some s) t = str_eq s t

module _ (py : Python) (server : IdentityServer) (issuer : String) where
  -- `_metadata`
  unfoldable pub metadata : Result OidcError Metadata
  metadata =
      and_then (or_error server.discover discovery_failed)
        (λ m. if text_is m.issuer issuer then ok m else err issuer_mismatch)

  -- What follows the verification of the token.
  unfoldable pub identity_of : String → TokenClaims → Result OidcError ExternalOidcIdentity
  identity_of expected_nonce_hash c = and_then (or_error c.nonce nonce_failed) (λ nonce.
      if str_eq (opaque_hash py nonce) expected_nonce_hash
      then and_then (or_error c.sub missing_claims) (λ subject.
        and_then (or_error c.email missing_claims) (λ email. ok (record {
          subject = subject;
          email = py.lower email;
          display_name = elim c.name [ none ↦ email | some n ↦ n ];
        })))
      else err nonce_failed)

  -- `exchange`
  unfoldable pub exchange : TokenRequest → String → Result OidcError ExternalOidcIdentity
  exchange request expected_nonce_hash = and_then metadata (λ m.
      and_then (https_endpoint m.token_endpoint) (λ token_endpoint.
        and_then (https_endpoint m.jwks_uri) (λ jwks_uri.
          and_then (or_error (server.request_token token_endpoint request) validation_failed)
            (λ found. and_then (or_error found no_id_token) (λ id_token.
              and_then (or_error (server.decode_token jwks_uri id_token) validation_failed)
                (λ decoded.
                  and_then (or_error decoded no_signing_key) (identity_of expected_nonce_hash)))))))
