-- ===== src/Config.antt =====
-- config.py: the settings, and the validator that refuses unsafe ones. Only the fields that it reads
-- are kept; pydantic's own checks (types, `ge`, `le`) are made before it.
pub mod Safety
mod Tests
use Prim.Native.String.{count}
use text.Mathlib.Text.{starts_with}
use aegisclaims_ai.Prelude.{
  Bool, List, Option, String, [], any, false, if◌then◌else◌, is_empty, is_some, ltb, none, not,
  some, str_eq, true, ℕ, ◌&&◌, ◌++◌, ◌||◌, ◌∷◌,
}

pub data Environment : Type 0 where
  local test development staging production : Environment

pub data AuthProvider : Type 0 where
  local oidc : AuthProvider

pub data StorageProvider : Type 0 where
  memory filesystem s3_compatible aws_s3 : StorageProvider

pub data QueueProvider : Type 0 where
  memory redis sqs : QueueProvider

pub data ModelProviderName : Type 0 where
  deterministic bedrock : ModelProviderName

pub data RateLimitProvider : Type 0 where
  memory redis : RateLimitProvider

pub record Settings : Type 0 where
  pub app_env : Environment
  pub api_cors_origins : List String
  pub trusted_hosts : List String
  pub public_base_url : String
  pub api_docs_enabled : Bool
  pub database_url : String
  pub auth_provider : AuthProvider
  pub dev_auth_secret : String
  pub oidc_issuer : Option String
  pub oidc_audience : Option String
  pub oidc_client_id : Option String
  pub oidc_client_secret : Option String
  pub oidc_redirect_uri : Option String
  pub oidc_tenant_id : Option ℕ
  pub object_storage_provider : StorageProvider
  pub object_storage_endpoint : Option String
  pub object_storage_access_key : Option String
  pub object_storage_secret_key : Option String
  pub queue_provider : QueueProvider
  pub redis_url : String
  pub rate_limit_provider : RateLimitProvider
  pub model_provider : ModelProviderName
  pub bedrock_model_id : Option String
  pub bedrock_region : Option String

abbrev pub is_safe_local : Environment → Bool
is_safe_local Environment.local = true
is_safe_local Environment.test = true
is_safe_local _ = false

-- The truth of an optional text.
abbrev pub given : Option String → Bool
given none = false
given (some s) = not (str_eq s "")

-- `(url or "").startswith(prefix)`
abbrev pub url_with : String → Option String → Bool
url_with scheme none = starts_with "" scheme
url_with scheme (some url) = starts_with url scheme

-- `not origins or "*" in origins`
abbrev pub is_wildcard : List String → Bool
is_wildcard xs = is_empty xs || any (λ x. str_eq x "*") xs

abbrev pub is_local_auth : AuthProvider → Bool
is_local_auth AuthProvider.local = true
is_local_auth AuthProvider.oidc = false

abbrev pub is_local_storage : StorageProvider → Bool
is_local_storage StorageProvider.memory = true
is_local_storage StorageProvider.filesystem = true
is_local_storage _ = false

abbrev pub is_s3_compatible : StorageProvider → Bool
is_s3_compatible StorageProvider.s3_compatible = true
is_s3_compatible _ = false

abbrev pub is_aws_s3 : StorageProvider → Bool
is_aws_s3 StorageProvider.aws_s3 = true
is_aws_s3 _ = false

abbrev pub is_memory_queue : QueueProvider → Bool
is_memory_queue QueueProvider.memory = true
is_memory_queue _ = false

abbrev pub is_redis_queue : QueueProvider → Bool
is_redis_queue QueueProvider.redis = true
is_redis_queue _ = false

abbrev pub is_bedrock : ModelProviderName → Bool
is_bedrock ModelProviderName.bedrock = true
is_bedrock ModelProviderName.deterministic = false

abbrev pub is_redis_limiter : RateLimitProvider → Bool
is_redis_limiter RateLimitProvider.redis = true
is_redis_limiter RateLimitProvider.memory = false

abbrev pub has_oidc : Settings → Bool
has_oidc s =
    given s.oidc_issuer
    && (given s.oidc_audience
        && (given s.oidc_client_id
            && (given s.oidc_client_secret
                && (given s.oidc_redirect_uri && is_some s.oidc_tenant_id))))

-- A test of the validator, and the message that it raises when the test holds.
pub record Guard : Type 0 where
  pub refuses : Bool
  pub message : String

-- The tests on the deployment itself.
unfoldable pub deployment_guards : Bool → Settings → List Guard
deployment_guards safe_local s =
    record {
      refuses = is_wildcard s.api_cors_origins;
      message = "credentialed CORS requires an explicit non-wildcard origin allowlist";
    }
    ∷ record {
      refuses = is_wildcard s.trusted_hosts;
      message = "TRUSTED_HOSTS must contain an explicit non-wildcard allowlist";
    }
    ∷ record {
      refuses = is_local_auth s.auth_provider && not safe_local;
      message = "local authentication is allowed only in local or test environments";
    }
    ∷ record {
      refuses = is_local_storage s.object_storage_provider && not safe_local;
      message = "local object storage is allowed only in local or test environments";
    }
    ∷ record {
      refuses = is_memory_queue s.queue_provider && not safe_local;
      message = "memory queue is allowed only in local or test environments";
    }
    ∷ record {
      refuses = not (is_bedrock s.model_provider) && not safe_local;
      message = "deterministic model provider is allowed only locally or in tests";
    }
    ∷ record {
      refuses =
          is_bedrock s.model_provider
          && (not (given s.bedrock_model_id) || not (given s.bedrock_region));
      message = "BEDROCK_MODEL_ID and BEDROCK_REGION are required for Bedrock";
    }
    ∷ []

-- The `if`, `elif`, `elif` on the identity provider, and the tests on the object storage.
unfoldable pub credential_guards : Bool → Settings → List Guard
credential_guards safe_local s =
    record {
      refuses = is_local_auth s.auth_provider && ltb (count s.dev_auth_secret) 32;
      message = "DEV_AUTH_SECRET must contain at least 32 characters";
    }
    ∷ record {
      refuses = not (is_local_auth s.auth_provider) && not (has_oidc s);
      message =
          "OIDC issuer, audience, client, redirect URI, secret, and tenant mapping are required";
    }
    ∷ record {
      refuses =
          not (is_local_auth s.auth_provider)
          && (has_oidc s
              && (not safe_local
                  && (not (url_with "https://" s.oidc_issuer)
                      || not (url_with "https://" s.oidc_redirect_uri))));
      message = "OIDC issuer and redirect URI must use HTTPS outside local/test";
    }
    ∷ record {
      refuses = is_s3_compatible s.object_storage_provider && not (given s.object_storage_endpoint);
      message = "OBJECT_STORAGE_ENDPOINT is required for S3-compatible storage";
    }
    ∷ record {
      refuses =
          is_s3_compatible s.object_storage_provider
          && (not (given s.object_storage_access_key) || not (given s.object_storage_secret_key));
      message = "object storage credentials are required";
    }
    ∷ record {
      refuses =
          is_aws_s3 s.object_storage_provider
          && (not safe_local
              && (given s.object_storage_access_key || given s.object_storage_secret_key));
      message = "production AWS S3 must use workload identity, not static access keys";
    }
    ∷ []

-- The tests under `if not safe_local`.
unfoldable pub production_guards : Settings → List Guard
production_guards s =
    record {
      refuses = not (starts_with s.public_base_url "https://");
      message = "PUBLIC_BASE_URL must use HTTPS outside local/test";
    }
    ∷ record {
      refuses = not (starts_with s.database_url "postgresql+");
      message = "production-like environments require PostgreSQL";
    }
    ∷ record {
      refuses = not (is_redis_queue s.queue_provider);
      message = "production-like environments require the Redis queue adapter";
    }
    ∷ record {
      refuses = not (starts_with s.redis_url "rediss://");
      message = "production-like Redis connections must use TLS (rediss://)";
    }
    ∷ record {
      refuses = not (is_redis_limiter s.rate_limit_provider);
      message = "production-like environments require Redis-backed rate limiting";
    }
    ∷ record {
      refuses = s.api_docs_enabled;
      message = "interactive API documentation must be disabled outside local/test";
    }
    ∷ []

-- The first test that holds raises its message.
abbrev pub first_refusal : List Guard → Option String
first_refusal [] = none
first_refusal (g ∷ gs) = if g.refuses then some g.message else first_refusal gs

-- `validate_environment_safety`: the message of the `ValueError`, if it raises one.
unfoldable pub validate_environment_safety : Settings → Option String
validate_environment_safety s =
    let safe_local = is_safe_local s.app_env in
    first_refusal (
      deployment_guards safe_local s
      ++ (credential_guards safe_local s ++ (if safe_local then [] else production_guards s)))
