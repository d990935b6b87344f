-- ===== src/Store/BriefRows.antt =====
-- infrastructure/models.py: the rows of model invocations, of briefs and of OIDC sign-ins.
use aegisclaims_ai.Prelude.{ℕ, String, Bool, Option, List}
use aegisclaims_ai.Store.WorkflowRows.{Citation}

-- `ModelInvocationModel`; the latency is left out.
pub record ModelInvocation : Type 0 where
  pub id : ℕ
  pub tenant_id : ℕ
  pub claim_id : ℕ
  pub workflow_run_id : Option ℕ
  pub actor_user_id : ℕ
  pub provider : String
  pub model_identifier : String
  pub configuration_version : String
  pub prompt_template_version : String
  pub retrieval_configuration : String
  pub response_schema_version : String
  pub evidence_fingerprint : String
  pub authorized_citation_ids : List String
  pub prompt_hash : String
  pub outcome : String
  pub validation_failures : List String
  pub input_tokens : Option ℕ
  pub output_tokens : Option ℕ
  pub retry_count : ℕ
  pub correlation_id : String

-- The values of a brief's `status`.
pub data BriefStatus : Type 0 where
  supported insufficient_evidence conflicting_evidence ambiguous_evidence : BriefStatus

-- The dictionary that `create` stores as `content`.
pub record BriefContent : Type 0 where
  pub claim_summary : String
  pub evidence_summary : String
  pub applicable_policy_summary : String
  pub missing_information : List String
  pub conflicts : List String
  pub ambiguities : List String
  pub safety_flags : List String
  pub human_review_required : Bool
  pub limitations : List String
  pub citations : List Citation
  pub authority_notice : String

-- `ClaimEvidenceBriefModel`
pub record ClaimEvidenceBrief : Type 0 where
  pub id : ℕ
  pub tenant_id : ℕ
  pub claim_id : ℕ
  pub workflow_run_id : Option ℕ
  pub invocation_id : ℕ
  pub created_by_user_id : ℕ
  pub task : String
  pub status : BriefStatus
  pub content : BriefContent
  pub evidence_fingerprint : String
  pub applicable_policy_edition : String
  pub idempotency_key : String
  pub validation_state : String
  pub created_at : ℕ

-- `OIDCLoginTransactionModel`
pub record OidcLoginTransaction : Type 0 where
  pub state_hash : String
  pub nonce_hash : String
  pub browser_binding_hash : String
  pub code_verifier : String
  pub redirect_uri : String
  pub expires_at : ℕ
  pub consumed_at : Option ℕ
