-- ===== src/Workflow/Graph.antt =====
-- workflows/engine.py: the five nodes of `ControlledWorkflowGraph`, `citation_dict` and `artifact`.
-- The edges run in one line from START to END, so the graph is the list of its nodes.
pub mod Outcome
use Prim.Native.String.{◌++◌ as concat}
use aegisclaims_ai.Prelude.{
  Bool, List, Option, String, [], any, false, filter, if◌then◌else◌, is_empty, map, none, not, some,
  str_eq, true, ℕ, ◌&&◌, ◌++◌, ◌==◌, ◌∷◌,
}
use aegisclaims_ai.Documents.Conflicts.{conflicts}
use aegisclaims_ai.Domain.{Actor, WorkflowStatus}
use aegisclaims_ai.Prelude.Exec.{Exec, gets, pure, ◌>>=◌, ◌>>◌}
use aegisclaims_ai.Prelude.Python.{Python}
use aegisclaims_ai.Retrieval.Types.{
  Answer, AnswerState, GroundedExecution, RetrievalError, RetrievedEvidence, ambiguous_evidence,
  conflicting_evidence, stable_citation_id,
}
use aegisclaims_ai.Store.{
  ApprovalState, Citation, ConflictSummary, FactConflict, ReviewArtifact, Session, Stage,
  WorkflowState,
}

-- `citation_dict`
unfoldable pub citation_dict : Python → RetrievedEvidence → ℕ → Citation
citation_dict py item claim_id =
    let c = item.chunk in
    record {
      id = stable_citation_id py c.chunk_identifier;
      claim_id = claim_id;
      document_id = c.document_id;
      document_name = c.document_name;
      document_type = c.document_type;
      page_number = c.page_number;
      chunk_identifier = c.chunk_identifier;
      chunk_ordinal = c.chunk_ordinal;
      source_start = c.source_start;
      source_end = c.source_end;
      source_checksum = c.source_checksum;
      page_checksum = c.page_checksum;
      excerpt = c.normalized_text;
      policy_edition = c.policy_edition;
      applicability_status = item.applicability_status;
      injection_risk = c.injection_risk;
      retrieval_rank = item.rank;
    }

-- `_load_claim_context`
unfoldable pub load_claim_context : WorkflowState → WorkflowState
load_claim_context s = record s {
  current_stage = Stage.gathering_evidence;
  status = WorkflowStatus.gathering_evidence;
}

-- The workflow's column `status` takes the answer's state as it is.
abbrev pub status_of_answer : AnswerState → WorkflowStatus
status_of_answer AnswerState.answerable = WorkflowStatus.answerable
status_of_answer AnswerState.insufficient_evidence = WorkflowStatus.insufficient_evidence
status_of_answer AnswerState.conflicting_evidence = WorkflowStatus.conflicting_evidence
status_of_answer AnswerState.ambiguous_evidence = WorkflowStatus.ambiguous_evidence

abbrev pub is_insufficient : AnswerState → Bool
is_insufficient AnswerState.insufficient_evidence = true
is_insufficient _ = false

abbrev pub conflict_summary : FactConflict → ConflictSummary
conflict_summary c = record {
  fact_type = c.fact_type;
  left_document_name = c.left_fact.document_name;
  left_value = c.left_fact.normalized_value;
  right_document_name = c.right_fact.document_name;
  right_value = c.right_fact.normalized_value;
}

-- `missing`, with `answer_support` where the answer names nothing itself.
abbrev pub missing_of : GroundedExecution → List String
missing_of result =
    if is_insufficient result.state && is_empty result.missing_information
    then "answer_support" ∷ []
    else result.missing_information

-- The second half of `_retrieve_evidence`: the state after the answer.
unfoldable pub with_evidence :
    Python → GroundedExecution → List FactConflict → WorkflowState → WorkflowState
with_evidence py result conflict_rows s =
    let citations = map (λ item. citation_dict py item s.claim_id) result.retrieval.evidence in
    record s {
      current_stage = Stage.evaluating_evidence;
      status = status_of_answer result.state;
      retrieved_evidence = citations;
      citations = citations;
      conflicts = map conflict_summary conflict_rows;
      ambiguities = result.ambiguity_indicators;
      missing_information = missing_of result;
      prompt_injection_indicators =
          map (λ _. "untrusted_document_instructions_present")
            (filter (λ (c : Citation). c.injection_risk) citations);
    }

-- `_retrieve_evidence`
unfoldable pub retrieve_evidence :
    Python → Answer → Actor → WorkflowState → Exec RetrievalError Session WorkflowState
retrieve_evidence py answer actor s = do
  result ← answer s.claim_id actor s.task 5
  rows ← gets (λ (t : Session). conflicts t.db s.claim_id actor.tenant_id)
  pure (with_evidence py result rows s)

-- `_validate_provenance`
unfoldable pub validate_provenance : WorkflowState → WorkflowState
validate_provenance s =
    if any (λ (c : Citation). not (c.claim_id == s.claim_id)) s.citations
    then record s {
      current_stage = Stage.provenance_validation_failed;
      status = WorkflowStatus.failed;
      error_code = some "citation_scope_invalid";
      error_detail = some "Citation provenance did not match the authorized claim.";
    }
    else record s { current_stage = Stage.determining_review_requirements }

abbrev pub is_failed : WorkflowStatus → Bool
is_failed WorkflowStatus.failed = true
is_failed _ = false

abbrev pub status_is_insufficient : WorkflowStatus → Bool
status_is_insufficient WorkflowStatus.insufficient_evidence = true
status_is_insufficient _ = false

abbrev pub status_is_conflicting : WorkflowStatus → Bool
status_is_conflicting WorkflowStatus.conflicting_evidence = true
status_is_conflicting _ = false

-- `if test: reasons.append(reason)`
abbrev pub append_if : Bool → String → List String → List String
append_if test reason reasons = if test then reasons ++ reason ∷ [] else reasons

-- The reasons of `_determine_review`, in the order of its tests.
unfoldable pub review_reasons : WorkflowState → List String
review_reasons s = append_if s.human_review_required "synthetic_scenario_mandates_review" (
    append_if (not (is_empty s.prompt_injection_indicators)) "untrusted_content_detected" (
      append_if (not (is_empty s.ambiguities)) "material_ambiguity" (
        append_if (not (is_empty s.conflicts) && status_is_conflicting s.status)
          "material_evidence_conflict"
          (append_if (not (is_empty s.missing_information)) "required_evidence_missing"
            (append_if (status_is_insufficient s.status) "insufficient_evidence" [])))))

-- `",".join(reasons)`; the reasons are distinct, so `dict.fromkeys` drops none.
abbrev pub join_comma : List String → String
join_comma [] = ""
join_comma (r ∷ []) = r
join_comma (r ∷ rs) = concat r (concat "," (join_comma rs))

-- `_determine_review`
unfoldable pub determine_review : WorkflowState → WorkflowState
determine_review s =
    if is_failed s.status
    then s
    else let reasons = review_reasons s in
      let required = not (is_empty reasons) in
      record s {
        human_review_required = required;
        human_review_reason = if required then some (join_comma reasons) else none;
        approval_state = if required then ApprovalState.pending else ApprovalState.not_required;
      }

-- The proposals of `_prepare_artifact`.
unfoldable pub proposals : WorkflowState → List String
proposals s =
    if not (is_empty s.missing_information)
    then map (λ item. concat "Request missing " (concat item ".")) s.missing_information
    else if not (is_empty s.conflicts)
    then "Inspect each conflicting source; do not select a value automatically." ∷ []
    else if not (is_empty s.ambiguities)
    then "Route the cited policy language to an authorized human reviewer." ∷ []
    else if not (is_empty s.prompt_injection_indicators)
    then "Review the flagged document as untrusted evidence only." ∷ []
    else if s.human_review_required
    then "Complete the mandatory supervisor evidence review." ∷ []
    else "Record that the cited evidence bundle is ready for human use." ∷ []

-- `_prepare_artifact`
unfoldable pub prepare_artifact : WorkflowState → WorkflowState
prepare_artifact s =
    if is_failed s.status then record s { current_stage = Stage.failed } else record s {
      current_stage =
          if s.human_review_required then Stage.awaiting_human_review else Stage.completed;
      status =
          if s.human_review_required
          then WorkflowStatus.awaiting_human_review
          else WorkflowStatus.completed;
      proposed_next_steps = proposals s;
    }

abbrev pub option_str_eq : Option String → Option String → Bool
option_str_eq none none = true
option_str_eq (some a) (some b) = str_eq a b
option_str_eq _ _ = false

-- `artifact`
unfoldable pub artifact : WorkflowState → ReviewArtifact
artifact s = record {
  established_evidence = map (λ (c : Citation). (c.id, c.document_name)) s.citations;
  applicable_policy_evidence =
      map (λ (c : Citation). (c.id, c.policy_edition))
        (filter
          (λ (c : Citation). option_str_eq c.policy_edition (some s.applicable_policy_edition))
          s.citations);
  conflicting_evidence = s.conflicts;
  ambiguous_evidence = s.ambiguities;
  missing_information = s.missing_information;
  untrusted_content_flags = s.prompt_injection_indicators;
  proposed_next_steps = s.proposed_next_steps;
  human_review_reason = s.human_review_reason;
  citations = s.citations;
}

-- A node, and the line of nodes that the graph compiles to.
abbrev pub Node : Type 0
Node = WorkflowState → Exec RetrievalError Session WorkflowState

unfoldable pub nodes : Python → Answer → Actor → List Node
nodes py answer actor =
    (λ s. pure (load_claim_context s))
    ∷ retrieve_evidence py answer actor
    ∷ (λ s. pure (validate_provenance s))
    ∷ (λ s. pure (determine_review s))
    ∷ (λ s. pure (prepare_artifact s))
    ∷ []
