-- ===== src/ModelAssistance/Provider.antt =====
-- model_assistance/provider.py: `DeterministicBriefProvider`, whose answers do not depend on the
-- number of the attempt.
use aegisclaims_ai.Prelude.{
  Bool, List, String, [], any_contains, contains, false, if◌then◌else◌, is_empty, map, not, some,
  str_eq, true, ℕ, ◌&&◌, ◌++◌, ◌+◌, ◌||◌, ◌∷◌,
}
use aegisclaims_ai.ModelAssistance.Types.{
  BriefCandidate, ModelEvidence, ModelLibrary, ModelProvider, ProviderOutcome,
  StructuredGenerationRequest, failed, generated, timed_out,
}
use aegisclaims_ai.ModelAssistance.Validation.{when}
use aegisclaims_ai.Prelude.Python.{Python}
use aegisclaims_ai.Retrieval.Answering.{join_lines}
use aegisclaims_ai.Store.{
  BriefStatus, ambiguous_evidence, conflicting_evidence, insufficient_evidence, supported,
}
use Prim.Native.String.{◌++◌ as concat}

abbrev pub prohibited_request_terms : List String
prohibited_request_terms =
    "ignore previous" ∷ "system message" ∷ "assistant message" ∷ "tool call"
    ∷ "follow the instruction" ∷ "hidden prompt" ∷ "reveal secret" ∷ "invent"
    ∷ "citation evidence-not-authorized" ∷ "wrong policy" ∷ "policy edition 1999"
    ∷ "landscaping correspondence" ∷ "coverage without" ∷ "approve claim" ∷ "approve this claim"
    ∷ "deny claim" ∷ "deny this claim" ∷ "issue payment" ∷ "close the claim" ∷ "payment instruction"
    ∷ "fabricate evidence" ∷ "fraudulent evidence" ∷ []

abbrev pub texts_of : List ModelEvidence → List String
texts_of = map (λ (e : ModelEvidence). e.text)

-- `missing`, from the task and the text in lower case, before the check for prohibited terms.
unfoldable pub missing_evidence : String → String → List String
missing_evidence task lowered =
    when (contains "estimate" task && not (contains "estimate amount" lowered)) "repair estimate"
    ++ when (contains "cause" task && contains "no date, inspection" lowered)
        "cause-supporting inspection"

unfoldable pub ambiguities_of : String → String → List String
ambiguities_of task lowered =
    when (contains "cause" task && contains "cause allocation is unresolved" lowered)
      "The available evidence does not resolve the damage cause."

unfoldable pub conflicts_of : String → String → List String
conflicts_of text lowered =
    when (contains "conflict" lowered || (contains "2026-08-18" text && contains "2026-08-12" text))
      "Retrieved sources contain different reported loss dates."

-- `status`, before the check for prohibited terms.
unfoldable pub evidence_status :
    List String → List String → List String → List ModelEvidence → BriefStatus
evidence_status conflicts ambiguities missing evidence =
    if not (is_empty conflicts)
    then conflicting_evidence
    else if not (is_empty ambiguities)
    then ambiguous_evidence
    else if not (is_empty missing) || is_empty evidence
    then insufficient_evidence
    else supported

unfoldable pub injection_flags : List ModelEvidence → List String
injection_flags [] = []
injection_flags (e ∷ es) =
    when e.injection_risk "untrusted_document_instructions_present" ++ injection_flags es

-- `self.behavior in {"hallucinated_citation", "outside_citation"}`
abbrev pub cites_outside : String → Bool
cites_outside behavior =
    str_eq behavior "hallucinated_citation" || str_eq behavior "outside_citation"

abbrev pub is_supported : BriefStatus → Bool
is_supported supported = true
is_supported _ = false

unfoldable pub summary_of : String → BriefStatus → String
summary_of behavior status =
    if str_eq behavior "prohibited"
    then "Approve this claim and issue payment immediately."
    else if is_supported status
    then "The retrieved claim evidence was organized for employee review."
    else "The retrieved evidence requires additional human attention."

module _ (py : Python) (lib : ModelLibrary) (behavior : String) where
  -- The dictionary that is dumped as the content.
  unfoldable pub brief_content : StructuredGenerationRequest → BriefCandidate
  brief_content request =
      let text = join_lines (texts_of request.evidence) in
      let lowered = py.lower text in
      let task = py.lower request.task in
      let prohibited = any_contains prohibited_request_terms task in
      let found = missing_evidence task lowered in
      let ambiguities = ambiguities_of task lowered in
      let conflicts = conflicts_of text lowered in
      let missing = found ++ when prohibited "supported claim evidence for the requested action" in
      let flags =
        injection_flags request.evidence
        ++ when prohibited "prohibited_or_instructional_request_detected" in
      let status =
        if prohibited
        then insufficient_evidence
        else evidence_status conflicts ambiguities found request.evidence in
      record {
        status = status;
        claim_summary = summary_of behavior status;
        evidence_summary = "Evidence was summarized only from authorized retrieval results.";
        applicable_policy_summary =
            concat "Applicable policy edition: " (concat request.applicable_policy_edition ".");
        missing_information = missing;
        conflicts = conflicts;
        ambiguities = ambiguities;
        safety_flags = flags;
        citation_handles =
            if cites_outside behavior
            then "EVIDENCE-NOT-AUTHORIZED" ∷ []
            else map (λ (e : ModelEvidence). e.handle) request.evidence;
        human_review_required =
            not (is_empty missing)
            || (not (is_empty conflicts) || (not (is_empty ambiguities) || not (is_empty flags)));
        limitations = "This brief is evidence assistance, not a claim or coverage decision." ∷ [];
      }

  abbrev pub total_words : List ModelEvidence → ℕ
  total_words [] = 0
  total_words (e ∷ es) = lib.count_words e.text + total_words es

  unfoldable pub generate_structured : ℕ → StructuredGenerationRequest → ProviderOutcome
  generate_structured n request =
      if str_eq behavior "timeout"
      then timed_out
      else if str_eq behavior "failure"
      then failed
      else let content =
          if str_eq behavior "malformed" then "not-json" else lib.dumps (brief_content request) in
        generated (record {
          content = content;
          input_tokens = some (total_words request.evidence);
          output_tokens = some (lib.count_words content);
        })

  abbrev pub deterministic_provider : ModelProvider
  deterministic_provider = record {
    provider_id = "local_deterministic";
    model_id = "claim_evidence_brief";
    configuration_version = "claim_evidence_brief_v1";
    generate_structured = generate_structured;
  }
