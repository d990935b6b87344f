-- ===== src/Config/Tests.antt =====
-- Settings of a production deployment.
use aegisclaims_ai.Prelude.{[], false, none, refl, some, ◌∷◌, ◌≡◌}
use aegisclaims_ai.Config.{
  AuthProvider, Environment, ModelProviderName, QueueProvider, RateLimitProvider, Settings,
  StorageProvider, credential_guards, deployment_guards, production_guards,
  validate_environment_safety,
}
use aegisclaims_ai.Config.Safety.{IsHardened, validate-IsHardened}

abbrev hardened : Settings
hardened = record {
  app_env = Environment.production;
  api_cors_origins = "https://app.example.test" ∷ [];
  trusted_hosts = "app.example.test" ∷ [];
  public_base_url = "https://app.example.test";
  api_docs_enabled = false;
  database_url = "postgresql+psycopg://db";
  auth_provider = AuthProvider.oidc;
  dev_auth_secret = "";
  oidc_issuer = some "https://id.example.test";
  oidc_audience = some "app";
  oidc_client_id = some "client";
  oidc_client_secret = some "secret";
  oidc_redirect_uri = some "https://app.example.test/callback";
  oidc_tenant_id = some 1;
  object_storage_provider = StorageProvider.aws_s3;
  object_storage_endpoint = none;
  object_storage_access_key = none;
  object_storage_secret_key = none;
  queue_provider = QueueProvider.redis;
  redis_url = "rediss://cache";
  rate_limit_provider = RateLimitProvider.redis;
  model_provider = ModelProviderName.bedrock;
  bedrock_model_id = some "model";
  bedrock_region = some "us-east-1";
}

hardened_accepted : validate_environment_safety hardened ≡ none
unfolding validate_environment_safety deployment_guards credential_guards production_guards
hardened_accepted = refl

validate-IsHardened_example : IsHardened hardened
validate-IsHardened_example = validate-IsHardened hardened refl hardened_accepted
