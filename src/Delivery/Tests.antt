-- ===== src/Delivery/Tests.antt =====
-- Runs of the routes: a compliance reviewer who would start a workflow, and a callback that is sent
-- twice.
use aegisclaims_ai.Prelude.{[], arith, false, none, refl, some, true, ◌∷◌, ◌≡◌}
use aegisclaims_ai.Config.{AuthProvider}
use aegisclaims_ai.Delivery.Routes.{Services}
use aegisclaims_ai.Delivery.Routes.Guarded.{
  action_of, handle, handle-forbidden, start_workflow_route,
}
use aegisclaims_ai.Delivery.Signin.{SigninServices, oidc_callback}
use aegisclaims_ai.Delivery.Signin.SingleUse.{Redeemable, callback-once}
use aegisclaims_ai.Delivery.Types.{App, Limiter, forbidden, status_of, unauthenticated}
use aegisclaims_ai.Documents.Extraction.{unavailable_ocr}
use aegisclaims_ai.Domain.{Actor, compliance_reviewer, workflow_start}
use aegisclaims_ai.ModelAssistance.Types.{ProviderOutcome}
use aegisclaims_ai.Prelude.Exec.{err, ok}
use aegisclaims_ai.Security.Authorization.{authorize, not_permitted, role_permissions}
use aegisclaims_ai.Security.Oidc.{IdentityServer}
use aegisclaims_ai.Store.{OidcLoginTransaction}
use aegisclaims_ai.Workflow.Fixtures.{
  clock, empty_db, passage, plain, plain_indexer, saved_session, supervisor_actor,
}

abbrev reviewer : Actor
reviewer = record supervisor_actor { roles = compliance_reviewer ∷ [] }

abbrev no_limit : Limiter
no_limit limit window r counts =
    some (record { allowed = true; remaining = limit; retry_after_seconds = 1 }, counts)

abbrev services : Services
services = record {
  py = plain;
  retrieve = λ claim actor question limit s. (ok passage.retrieval, s);
  extract = λ question texts. "";
  library = record {
    model_validate_json = λ s. none;
    dumps = λ c. "";
    dump_prompt = λ task number edition used template. task;
    count_words = λ s. 0;
  };
  provider = record {
    provider_id = "p";
    model_id = "m";
    configuration_version = "1";
    generate_structured = λ n r. ProviderOutcome.failed;
  };
  limits = record { max_retries = 1; max_input_characters = 10; max_output_tokens = 10 };
  upload_library = record {
    leaf = λ name. name;
    suffix = λ name. ".txt";
    is_utf8 = λ content. true;
  };
  processor = record {
    put_bytes = λ key content mime. none;
    get_bytes = λ key. ok [];
    readers = record {
      decode = λ content. none;
      read_pdf = λ content. none;
      find_matches = λ t page. [];
      squeeze = λ s. s;
    };
    ocr = unavailable_ocr;
    indexer = plain_indexer;
    digest = λ content. "";
    encode = λ s. [];
    number_text = λ n. "";
    dump_artifact = λ id method pages. "";
    text_of = λ t. "";
    fact_id = λ id f. id;
  };
  limiter = no_limit;
  window = 60;
  upload_rate_limit = 1;
  retrieval_rate_limit = 1;
  model_rate_limit = 1;
  number_text = λ n. "";
  env = clock;
  brief_env = record { now = 20; invocation_id = 5; brief_id = 6 };
  document_id = 9;
  correlation_id = "corr-1";
}

abbrev quiet : App
quiet = record { session = saved_session empty_db; counts = [] }

may_not_start : authorize reviewer workflow_start ≡ err (not_permitted workflow_start)
unfolding authorize role_permissions
may_not_start = refl

handle-forbidden_example :
    (handle services reviewer (start_workflow_route 7 "Why?" "key-1") quiet
      ≡ (err (forbidden workflow_start), quiet))
    × (status_of (forbidden workflow_start) ≡ 403)
unfolding action_of
handle-forbidden_example =
    handle-forbidden services reviewer (start_workflow_route 7 "Why?" "key-1") quiet may_not_start

abbrev identity_server : IdentityServer
identity_server = record {
  discover = none;
  request_token = λ endpoint r. none;
  decode_token = λ uri token. none;
}

abbrev signin : SigninServices
signin = record {
  py = plain;
  auth_provider = AuthProvider.oidc;
  lifetimes = record { ttl_seconds = 60; remember_ttl_seconds = 600 };
  limiter = no_limit;
  window = 60;
  auth_rate_limit = 5;
  verify_password = λ hash password. false;
  oidc_client = some identity_server;
  issuer = "https://id";
  oidc_redirect_uri = some "https://app/callback";
  oidc_tenant_id = some 1;
  client_host = "host";
  correlation_id = "corr-1";
  token = "token";
  now = 20;
}

abbrev started : OidcLoginTransaction
started = record {
  state_hash = "state";
  nonce_hash = "nonce";
  browser_binding_hash = "browser";
  code_verifier = "verifier";
  redirect_uri = "https://app/callback";
  expires_at = 620;
  consumed_at = none;
}

abbrev waiting : App
waiting = record {
  session = saved_session (record empty_db { oidc_transactions = started ∷ [] });
  counts = [];
}

redeemable : Redeemable signin "state" "browser" waiting
redeemable = record {
  client = identity_server;
  configured = refl;
  transaction = started;
  pending = refl;
  unique = omega arith;
  given = refl;
  in_time = refl;
}

callback-once_example :
    let after = (oidc_callback signin "code" "state" "browser" waiting).1 in
    (oidc_callback (record signin { now = 30 }) "code-2" "state" "other" after
      ≡ (err unauthenticated, after))
    × (status_of unauthenticated ≡ 401)
callback-once_example =
    callback-once signin (record signin { now = 30 }) "code" "code-2" "state" "browser" "other"
      waiting redeemable refl identity_server refl
