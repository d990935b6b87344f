-- ===== src/ModelAssistance/Tests.antt =====
-- Runs of the creation of a brief: a provider that times out and then answers, and one that fails.
use Prim.Native.String.{count}
use mathlib.Core.List.{Mem}
use aegisclaims_ai.Prelude.{
  All, List, [], any_contains, arith, contains, false, none, refl, some, suc, zero, ℕ, ◌∷◌, ◌≡◌,
  ◌≤◌,
}
use aegisclaims_ai.ModelAssistance.Creation.{
  Prepared, accept, accepted, brief_row, create, create_new, generation_request, invocation,
  prepared, reject, settle,
}
use aegisclaims_ai.ModelAssistance.Creation.Governance.{
  create-IsGroundedBrief, create-IsRejected, create-succeeds,
}
use aegisclaims_ai.ModelAssistance.Creation.Outcome.{
  IsGroundedBrief, IsRejected, Ready, accepted_view, after_acceptance, after_rejection,
  ready_citations, result_of_attempts,
}
use aegisclaims_ai.ModelAssistance.Generation.{attempt, attempts, examine}
use aegisclaims_ai.ModelAssistance.Generation.Attempts.{Yields}
use aegisclaims_ai.ModelAssistance.Service.{
  BriefEnv, BriefError, BriefLimits, BriefRequest, ClaimEvidenceBriefView, audit, citation, cite,
  generation_rejected, view,
}
use aegisclaims_ai.ModelAssistance.Types.{
  BriefCandidate, ModelEvidence, ModelGenerationResult, ModelLibrary, ModelProvider,
  ProviderOutcome, StructuredGenerationRequest, failed, generated, timed_out,
}
use aegisclaims_ai.ModelAssistance.Validation.{
  add_citations, bounded_evidence, get_item, set_item, validate,
}
use aegisclaims_ai.ModelAssistance.Validation.Bounds.{bounded_evidence-IsBounded, total_characters}
use aegisclaims_ai.Prelude.Exec.{err, ok}
use aegisclaims_ai.Retrieval.Answering.{Retrieve}
use aegisclaims_ai.Retrieval.Types.{RetrievedEvidence, stable_citation_id}
use aegisclaims_ai.Store.{BriefStatus, Citation, Session}
use aegisclaims_ai.Store.Claims.{get_for_actor}
use aegisclaims_ai.Workflow.Fixtures.{
  admin_actor, empty_db, passage, plain, roof_claim, saved_session,
}

abbrev request : BriefRequest
request = record {
  claim_id = 7;
  actor = admin_actor;
  task = "Why?";
  idempotency_key = "b-1";
  correlation_id = "corr-1";
}

abbrev env : BriefEnv
env = record { now = 20; invocation_id = 5; brief_id = 6 }

abbrev limits : BriefLimits
limits = record { max_retries = 1; max_input_characters = 3; max_output_tokens = 100 }

abbrev candidate : BriefCandidate
candidate = record {
  status = BriefStatus.supported;
  claim_summary = "Hail.";
  evidence_summary = "One passage.";
  applicable_policy_summary = "2024";
  missing_information = [];
  conflicts = [];
  ambiguities = [];
  safety_flags = [];
  citation_handles = "CIT-chunk-1" ∷ [];
  human_review_required = false;
  limitations = "Assistance." ∷ [];
}

abbrev lib : ModelLibrary
lib = record {
  model_validate_json = λ s. some candidate;
  dumps = λ c. c.claim_summary;
  dump_prompt = λ task number edition used template. task;
  count_words = count;
}

abbrev answered : ModelGenerationResult
answered = record { content = "{}"; input_tokens = some 1; output_tokens = none }

abbrev slow_then_answers : ℕ → StructuredGenerationRequest → ProviderOutcome
slow_then_answers zero r = timed_out
slow_then_answers (suc n) r = generated answered

abbrev provider_with : (ℕ → StructuredGenerationRequest → ProviderOutcome) → ModelProvider
provider_with f = record {
  provider_id = "test";
  model_id = "m";
  configuration_version = "1";
  generate_structured = f;
}

abbrev slow : ModelProvider
slow = provider_with slow_then_answers

abbrev broken : ModelProvider
broken = provider_with (λ n r. failed)

abbrev retrieve_one : Retrieve
retrieve_one claim actor question limit s = (ok passage.retrieval, s)

abbrev start : Session
start = saved_session empty_db

abbrev ready : Ready retrieve_one request start
unfolding get_for_actor
ready = record {
  claim = roof_claim;
  found = refl;
  unused = refl;
  retrieval = passage.retrieval;
  after = start;
  retrieved = refl;
}

abbrev item : RetrievedEvidence
item = record {
  chunk = record {
    id = 1;
    index_id = 1;
    tenant_id = 1;
    claim_id = 7;
    document_id = 2;
    page_number = 1;
    chunk_identifier = "chunk-1";
    chunk_ordinal = 0;
    document_type = "estimate";
    policy_edition = none;
    source_checksum = "a";
    page_checksum = "b";
    normalized_text = "hail";
    source_start = 0;
    source_end = 4;
    embedding_version = "1";
    injection_risk = false;
    document_name = "estimate.txt";
  };
  rank = 1;
  applicability_status = "not_applicable";
}

abbrev cited_items : List Citation
cited_items = citation plain 7 item ∷ []

abbrev made : Prepared
made = result_of_attempts plain lib slow limits retrieve_one env request start ready

Yields-second :
    Yields plain lib slow
      (ready_citations plain retrieve_one request start ready)
      "2024"
      (generation_request plain lib slow limits request roof_claim
        (ready_citations plain retrieve_one request start ready))
      1
unfolding validate add_citations set_item get_item stable_citation_id contains any_contains ready
Yields-second = record {
  result = answered;
  candidate = candidate;
  returned = refl;
  parsed = refl;
  valid = refl;
}

created_brief : create plain lib slow limits retrieve_one env request start ≡ (
  ok (
      accepted_view plain lib slow limits retrieve_one env request start ready candidate cited_items
        (invocation plain lib slow limits env request made)),
  after_acceptance plain lib slow limits retrieve_one env request start ready candidate cited_items,
)
unfolding create create_new settle accept prepared accepted attempts attempt examine validate
    add_citations set_item get_item stable_citation_id contains any_contains cite view get_for_actor
    invocation audit brief_row generation_request
created_brief = refl

create-IsGroundedBrief_example :
    IsGroundedBrief plain retrieve_one request start ready
      (accepted_view plain lib slow limits retrieve_one env request start ready candidate
        cited_items
        (invocation plain lib slow limits env request made))
      (after_acceptance plain lib slow limits retrieve_one env request start ready candidate
        cited_items)
create-IsGroundedBrief_example =
    create-IsGroundedBrief plain lib slow limits retrieve_one env request start ready
      (accepted_view plain lib slow limits retrieve_one env request start ready candidate
        cited_items (invocation plain lib slow limits env request made))
      (after_acceptance plain lib slow limits retrieve_one env request start ready candidate
        cited_items)
      created_brief

rejected_brief : create plain lib broken limits retrieve_one env request start ≡ (
  err generation_rejected,
  after_rejection plain lib broken limits retrieve_one env request start ready,
)
unfolding create create_new settle reject prepared accepted attempts attempt get_for_actor
    invocation audit
rejected_brief = refl

create-IsRejected_example :
    (let e : BriefError = generation_rejected in e ≡ generation_rejected)
    × IsRejected retrieve_one request start ready
        (after_rejection plain lib broken limits retrieve_one env request start ready)
create-IsRejected_example =
    create-IsRejected plain lib broken limits retrieve_one env request start ready
      generation_rejected
      (after_rejection plain lib broken limits retrieve_one env request start ready) rejected_brief

create-succeeds_example :
    (v : ClaimEvidenceBriefView) × (s' : Session) × (create plain lib slow limits retrieve_one env
        request start
      ≡ (ok v, s'))
unfolding ready
create-succeeds_example =
    create-succeeds plain lib slow limits retrieve_one env request start ready 1 (omega arith)
      Yields-second

bounded_evidence-IsBounded_example :
    (total_characters (bounded_evidence 3 (("CIT-1", item) ∷ [])) ≤ 3)
    × All
        (λ (e : ModelEvidence). Mem e.handle ("CIT-1" ∷ []))
        (bounded_evidence 3 (("CIT-1", item) ∷ []))
bounded_evidence-IsBounded_example = bounded_evidence-IsBounded 3 (("CIT-1", item) ∷ [])
