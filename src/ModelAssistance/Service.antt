-- ===== src/ModelAssistance/Service.antt =====
-- model_assistance/service.py: `ClaimEvidenceBriefService` over the session. The provider is called
-- within the transaction and does not see it.
pub mod Cited
use Prim.Native.String.{◌++◌ as concat}
use aegisclaims_ai.Prelude.{
  Bool, List, Option, String, [], find, if◌then◌else◌, ltb, map, none, not, some, str_eq, str_lt, ℕ,
  ◌&&◌, ◌++◌, ◌==◌, ◌∷◌,
}
use aegisclaims_ai.Domain.{Actor}
use aegisclaims_ai.ModelAssistance.Validation.{Citations, get_item}
use aegisclaims_ai.Prelude.Exec.{Exec, gets, or_raise, pure, ◌>>=◌, ◌>>◌}
use aegisclaims_ai.Prelude.Python.{Python}
use aegisclaims_ai.Retrieval.Types.{RetrievalError, RetrievedEvidence, stable_citation_id}
use aegisclaims_ai.Store.{
  BriefContent, BriefStatus, Citation, ClaimEvidenceBrief, Db, Document, ModelInvocation, Session,
  WorkflowRun,
}
use aegisclaims_ai.Store.Claims.{documents, get_for_actor, sort_by}
use aegisclaims_ai.Workflow.Service.{join_bar}

-- The exceptions: `BriefNotFoundError`, `BriefConflictError`, `BriefGenerationError`, what the
-- retrieval raises, a `KeyError` of `citations[handle]`, and the `AssertionError` of `view`.
pub data BriefError : Type 0 where
  brief_not_found task_conflict generation_rejected : BriefError
  unknown_citation invocation_missing : BriefError
  retrieval_failed : RetrievalError → BriefError

abbrev pub Briefs : Type 0 → Type 0
Briefs = Exec BriefError Session

-- The clock, and the identifiers that the two new rows get.
pub record BriefEnv : Type 0 where
  pub now : ℕ
  pub invocation_id : ℕ
  pub brief_id : ℕ

-- The constructor's limits.
pub record BriefLimits : Type 0 where
  pub max_retries : ℕ
  pub max_input_characters : ℕ
  pub max_output_tokens : ℕ

-- The arguments of `create`.
pub record BriefRequest : Type 0 where
  pub claim_id : ℕ
  pub actor : Actor
  pub task : String
  pub idempotency_key : String
  pub correlation_id : String

abbrev pub prompt_template_version : String
prompt_template_version = "claim_evidence_brief_prompt_v1"

abbrev pub brief_schema_version : String
brief_schema_version = "claim_evidence_brief_schema_v1"

abbrev pub fusion_version : String
fusion_version = "hybrid_rrf_k60_v1"

abbrev pub authority_notice : String
authority_notice = "AI-assisted evidence brief. Decision remains with the authorized reviewer."

-- `ClaimEvidenceBriefView`; the fields of `content` are kept together.
pub record ClaimEvidenceBriefView : Type 0 where
  pub id : ℕ
  pub claim_id : ℕ
  pub workflow_id : Option ℕ
  pub task : String
  pub status : BriefStatus
  pub stale : Bool
  pub validation_state : String
  pub evidence_fingerprint : String
  pub applicable_policy_edition : String
  pub provider : String
  pub model_identifier : String
  pub configuration_version : String
  pub prompt_template_version : String
  pub retrieval_configuration : String
  pub response_schema_version : String
  pub input_tokens : Option ℕ
  pub output_tokens : Option ℕ
  pub retry_count : ℕ
  pub correlation_id : String
  pub created_at : ℕ
  pub content : BriefContent

-- The rows that the queries select.
abbrev pub used_key : ℕ → ℕ → String → ClaimEvidenceBrief → Bool
used_key tenant claim key b =
    b.tenant_id == tenant && (b.claim_id == claim && str_eq b.idempotency_key key)

abbrev pub run_of : ℕ → ℕ → WorkflowRun → Bool
run_of tenant claim w = w.tenant_id == tenant && w.claim_id == claim

-- The newest of the rows that a query selects, by their time of creation.
unfoldable pub newest_row {ℓ} : {A : Type ℓ} → (A → Bool) → (A → ℕ) → List A → Option A
newest_row p at [] = none
newest_row p at (x ∷ xs) =
    let rest = newest_row p at xs in
    if p x
    then elim rest [ none ↦ some x | some y ↦ if ltb (at x) (at y) then some y else some x ]
    else rest

-- `_fingerprint`
unfoldable pub evidence_fingerprint : Python → Db → ℕ → Actor → String → String
evidence_fingerprint py db claim_id actor task =
    let checksums = map (λ (d : Document). d.checksum_sha256) (documents db claim_id actor) in
    py.sha256 (concat (join_bar (sort_by str_lt checksums)) (concat "|" task))

-- `_citation`
unfoldable pub citation : Python → ℕ → RetrievedEvidence → Citation
citation py claim_id item = record {
  id = stable_citation_id py item.chunk.chunk_identifier;
  claim_id = claim_id;
  document_id = item.chunk.document_id;
  document_name = item.chunk.document_name;
  document_type = item.chunk.document_type;
  page_number = item.chunk.page_number;
  chunk_identifier = item.chunk.chunk_identifier;
  chunk_ordinal = item.chunk.chunk_ordinal;
  source_start = item.chunk.source_start;
  source_end = item.chunk.source_end;
  source_checksum = item.chunk.source_checksum;
  page_checksum = item.chunk.page_checksum;
  excerpt = item.chunk.normalized_text;
  policy_edition = item.chunk.policy_edition;
  applicability_status = item.applicability_status;
  injection_risk = item.chunk.injection_risk;
  retrieval_rank = item.rank;
}

-- `[self._citation(citations[handle], claim_id) for handle in handles]`; `none` is a `KeyError`.
unfoldable pub cite : Python → ℕ → Citations → List String → Option (List Citation)
cite py claim_id citations [] = some []
cite py claim_id citations (h ∷ hs) = elim (get_item h citations) [
  | none ↦ none
  | some item ↦ elim (cite py claim_id citations hs) [
    | none ↦ none
    | some cs ↦ some (citation py claim_id item ∷ cs)
  ]
]

-- `_audit`
unfoldable pub audit : ModelInvocation → Actor → String → Db → Db
audit inv actor action db = record db {
  audits =
      db.audits
      ++ record {
        tenant_id = actor.tenant_id;
        actor_user_id = some actor.user_id;
        action = action;
        resource_type = "model_invocation";
        resource_id = inv.id;
        outcome = inv.outcome;
        correlation_id = inv.correlation_id;
      }
        ∷ [];
}

abbrev pub add_invocation : ModelInvocation → Db → Db
add_invocation inv db = record db { invocations = db.invocations ++ inv ∷ [] }

abbrev pub add_brief : ClaimEvidenceBrief → Db → Db
add_brief b db = record db { briefs = db.briefs ++ b ∷ [] }

-- `view`
unfoldable pub view_of :
    Python → Db → Actor → ClaimEvidenceBrief → ModelInvocation → ClaimEvidenceBriefView
view_of py db actor b inv =
    let stale =
      not (str_eq b.evidence_fingerprint (evidence_fingerprint py db b.claim_id actor b.task)) in
    record {
      id = b.id;
      claim_id = b.claim_id;
      workflow_id = b.workflow_run_id;
      task = b.task;
      status = b.status;
      stale = stale;
      validation_state = if stale then "stale" else b.validation_state;
      evidence_fingerprint = b.evidence_fingerprint;
      applicable_policy_edition = b.applicable_policy_edition;
      provider = inv.provider;
      model_identifier = inv.model_identifier;
      configuration_version = inv.configuration_version;
      prompt_template_version = inv.prompt_template_version;
      retrieval_configuration = inv.retrieval_configuration;
      response_schema_version = inv.response_schema_version;
      input_tokens = inv.input_tokens;
      output_tokens = inv.output_tokens;
      retry_count = inv.retry_count;
      correlation_id = inv.correlation_id;
      created_at = b.created_at;
      content = b.content;
    }

unfoldable pub view : Python → Actor → ClaimEvidenceBrief → Briefs ClaimEvidenceBriefView
view py actor b = do
  found ←
      gets
        (λ (s : Session). find (λ (i : ModelInvocation). i.id == b.invocation_id) s.db.invocations)
  inv ← or_raise found invocation_missing
  gets (λ (s : Session). view_of py s.db actor b inv)

-- `get`
unfoldable pub get : ℕ → Actor → Briefs ClaimEvidenceBrief
get brief_id actor = do
  found ← gets (λ (s : Session).
      find (λ (b : ClaimEvidenceBrief). b.id == brief_id && b.tenant_id == actor.tenant_id)
        s.db.briefs)
  b ← or_raise found brief_not_found
  claim ← gets (λ (s : Session). get_for_actor s.db b.claim_id actor)
  or_raise claim brief_not_found
  pure b

-- `latest`
unfoldable pub latest : Python → ℕ → Actor → Briefs (Option ClaimEvidenceBriefView)
latest py claim_id actor = do
  claim ← gets (λ (s : Session). get_for_actor s.db claim_id actor)
  or_raise claim brief_not_found
  found ← gets (λ (s : Session).
      newest_row
        (λ (b : ClaimEvidenceBrief). b.claim_id == claim_id && b.tenant_id == actor.tenant_id)
        (λ (b : ClaimEvidenceBrief). b.created_at) s.db.briefs)
  elim found [ none ↦ pure none | some b ↦ view py actor b >>= λ v. pure (some v) ]
