-- ===== src/Config/Safety.antt =====
-- What settings outside the local and test environments have, once they are accepted.
use text.Mathlib.Text.{starts_with}
use aegisclaims_ai.Prelude.{
  All, Bool, Bool-cases, List, [], false, inl, inr, none, not, refl, some≢none, true, ◌&&◌, ◌++◌,
  ◌||◌, ◌↔◌, ◌∷◌, ◌≡◌,
}
use aegisclaims_ai.Config.{
  AuthProvider, Guard, ModelProviderName, QueueProvider, RateLimitProvider, Settings,
  credential_guards, deployment_guards, first_refusal, has_oidc, is_bedrock, is_local_auth,
  is_local_storage, is_redis_limiter, is_redis_queue, is_safe_local, is_wildcard, production_guards,
  url_with, validate_environment_safety,
}

accepted : (gs : List Guard) → first_refusal gs ≡ none → All (λ g. g.refuses ≡ false) gs
accepted [] h = tt
accepted (g ∷ gs) h = elim (Bool-cases g.refuses) [
  | inl e ↦ absurd (some≢none (rw e at h))
  | inr e ↦ (e, accepted gs (rw e at h))
]

passed : (gs : List Guard) → All (λ g. g.refuses ≡ false) gs → first_refusal gs ≡ none
passed [] h = refl
passed (g ∷ gs) h = rw h.0 (passed gs h.1)

refusal_iff : (gs : List Guard) → (first_refusal gs ≡ none) ↔ All (λ g. g.refuses ≡ false) gs
refusal_iff gs = (accepted gs, passed gs)

-- The settings are fit for an environment that others reach.
pub record IsHardened (s : Settings) : Type 0 where
  pub cors : is_wildcard s.api_cors_origins ≡ false
  pub hosts : is_wildcard s.trusted_hosts ≡ false
  pub oidc : s.auth_provider ≡ AuthProvider.oidc
  pub oidc_complete : has_oidc s ≡ true
  pub issuer_https : url_with "https://" s.oidc_issuer ≡ true
  pub redirect_https : url_with "https://" s.oidc_redirect_uri ≡ true
  pub storage_remote : is_local_storage s.object_storage_provider ≡ false
  pub model_bedrock : s.model_provider ≡ ModelProviderName.bedrock
  pub queue_redis : s.queue_provider ≡ QueueProvider.redis
  pub redis_tls : starts_with s.redis_url "rediss://" ≡ true
  pub limiter_redis : s.rate_limit_provider ≡ RateLimitProvider.redis
  pub base_https : starts_with s.public_base_url "https://" ≡ true
  pub database_postgres : starts_with s.database_url "postgresql+" ≡ true
  pub docs_disabled : s.api_docs_enabled ≡ false

not-false : (b : Bool) → not b ≡ false → b ≡ true
not-false true h = refl
not-false false h = cc

left-false : (a : Bool) → (a && not false) ≡ false → a ≡ false
left-false true h = cc
left-false false h = refl

is_oidc : (a : AuthProvider) → is_local_auth a ≡ false → a ≡ AuthProvider.oidc
is_oidc AuthProvider.local h = cc
is_oidc AuthProvider.oidc h = refl

bedrock_only : (m : ModelProviderName) → is_bedrock m ≡ true → m ≡ ModelProviderName.bedrock
bedrock_only ModelProviderName.bedrock h = refl
bedrock_only ModelProviderName.deterministic h = cc

redis_only : (q : QueueProvider) → is_redis_queue q ≡ true → q ≡ QueueProvider.redis
redis_only QueueProvider.redis h = refl
redis_only _ h = cc

redis_limiter_only :
    (r : RateLimitProvider) → is_redis_limiter r ≡ true → r ≡ RateLimitProvider.redis
redis_limiter_only RateLimitProvider.redis h = refl
redis_limiter_only RateLimitProvider.memory h = cc

both_https : (a b : Bool) → (not a || not b) ≡ false → (a ≡ true) × (b ≡ true)
both_https true true h = (refl, refl)
both_https a b h = cc

-- Settings that are accepted outside the local and test environments are hardened: explicit origins
-- and hosts, a complete OIDC set-up over HTTPS, no local storage, Bedrock, Redis over TLS for the
-- queue and the rate limits, PostgreSQL, and no interactive documentation.
pub validate-IsHardened :
    (s : Settings)
    → is_safe_local s.app_env ≡ false
    → validate_environment_safety s ≡ none
    → IsHardened s
unfolding validate_environment_safety deployment_guards credential_guards production_guards
validate-IsHardened s unsafe h =
    let guards = deployment_guards false s ++ (credential_guards false s ++ production_guards s) in
    let facts : All (λ g. g.refuses ≡ false) guards = accepted guards (rw unsafe at h) in
    let (
      cors,
      (
        hosts,
        (
          auth,
          (
            storage,
            (
              queue,
              (
                model,
                (
                  model_id,
                  (
                    secret,
                    (
                      complete_oidc,
                      (
                        https,
                        (
                          endpoint,
                          (
                            keys,
                            (
                              static_keys,
                              (base, (database, (redis_queue, (tls, (limiter, (docs, _)))))),
                            ),
                          ),
                        ),
                      ),
                    ),
                  ),
                ),
              ),
            ),
          ),
        ),
      ),
    ) =
      facts in
    let remote = left-false (is_local_auth s.auth_provider) auth in
    let complete = not-false (has_oidc s) (rw remote at complete_oidc) in
    let secure = both_https _ _ (rw (remote, complete) at https) in
    record {
      cors = cors;
      hosts = hosts;
      oidc = is_oidc s.auth_provider remote;
      oidc_complete = complete;
      issuer_https = secure.0;
      redirect_https = secure.1;
      storage_remote = left-false _ storage;
      model_bedrock = bedrock_only s.model_provider (not-false _ (left-false _ model));
      queue_redis = redis_only s.queue_provider (not-false _ redis_queue);
      redis_tls = not-false _ tls;
      limiter_redis = redis_limiter_only s.rate_limit_provider (not-false _ limiter);
      base_https = not-false _ base;
      database_postgres = not-false _ database;
      docs_disabled = docs;
    }
