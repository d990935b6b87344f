-- ===== src/ModelAssistance/Types.antt =====
-- ports/model_provider.py, and the schema of model_assistance/service.py that a model's output must
-- have. Latencies and the timeout are left out, since no branch depends on them.
-- `response_schema` is the constant schema of `BriefCandidate`.
use aegisclaims_ai.Prelude.{Bool, List, Option, String, ℕ}
use aegisclaims_ai.Store.{BriefStatus}

-- `ModelEvidence`
pub record ModelEvidence : Type 0 where
  pub handle : String
  pub text : String
  pub policy_edition : Option String
  pub injection_risk : Bool

-- `StructuredGenerationRequest`
pub record StructuredGenerationRequest : Type 0 where
  pub task : String
  pub claim_number : String
  pub applicable_policy_edition : String
  pub evidence : List ModelEvidence
  pub correlation_id : String
  pub prompt_template_version : String
  pub response_schema_version : String
  pub max_output_tokens : ℕ

-- `ModelGenerationResult`
pub record ModelGenerationResult : Type 0 where
  pub content : String
  pub input_tokens : Option ℕ
  pub output_tokens : Option ℕ

-- What a call of a provider ends with: a result, or one of `ModelProviderTimeout`,
-- `ModelProviderThrottled` and `ModelProviderError`.
pub data ProviderOutcome : Type 0 where
  generated : ModelGenerationResult → ProviderOutcome
  timed_out throttled failed : ProviderOutcome

-- `ModelProvider`. A provider may answer each attempt differently, so a call takes its number.
pub record ModelProvider : Type 0 where
  pub provider_id : String
  pub model_id : String
  pub configuration_version : String
  pub generate_structured : ℕ → StructuredGenerationRequest → ProviderOutcome

-- `BriefCandidate`
pub record BriefCandidate : Type 0 where
  pub status : BriefStatus
  pub claim_summary : String
  pub evidence_summary : String
  pub applicable_policy_summary : String
  pub missing_information : List String
  pub conflicts : List String
  pub ambiguities : List String
  pub safety_flags : List String
  pub citation_handles : List String
  pub human_review_required : Bool
  pub limitations : List String

-- Library calls whose results the service only stores or tests: `BriefCandidate.model_validate_json`,
-- where `none` is a `ValidationError`; `json.dumps` of a candidate; the JSON text that is
-- hashed for a prompt; `len(text.split())`.
pub record ModelLibrary : Type 0 where
  pub model_validate_json : String → Option BriefCandidate
  pub dumps : BriefCandidate → String
  pub dump_prompt : String → String → String → List String → String → String
  pub count_words : String → ℕ
