-- ===== src/Retrieval/Answering.antt =====
-- `GroundedAnswerService.answer` of retrieval/service.py, and `generate` of retrieval/generation.py.
-- `Retrieve` is `RetrievalService.retrieve`; `extract` is the choice of a sentence for an answerable
-- question, which is by regular expressions.
pub mod Decision
mod Tests
use Prim.Native.String.{◌++◌ as concat}
use aegisclaims_ai.Prelude.{
  Bool, List, Option, String, [], all, any_contains, contains, false, if◌then◌else◌, is_empty, map,
  none, not, some, str_eq, true, ℕ, ◌&&◌, ◌||◌, ◌∷◌,
}
use aegisclaims_ai.Documents.Conflicts.{conflicts}
use aegisclaims_ai.Domain.{Actor, ReviewStatus}
use aegisclaims_ai.Prelude.Exec.{Exec, gets, pure, ◌>>=◌, ◌>>◌}
use aegisclaims_ai.Prelude.Python.{Python}
use aegisclaims_ai.Retrieval.Types.{
  Answer, AnswerState, GroundedExecution, RetrievalError, RetrievalExecution, RetrievedEvidence,
}
use aegisclaims_ai.Store.{FactConflict, Session}
use aegisclaims_ai.Store.Claims.{review_status}

-- `RetrievalService.retrieve`: the claim, the actor, the question and the limit.
abbrev pub Retrieve : Type 0
Retrieve = ℕ → Actor → String → ℕ → Exec RetrievalError Session RetrievalExecution

-- `"\n".join(texts)`
abbrev pub join_lines : List String → String
join_lines [] = ""
join_lines (t ∷ []) = t
join_lines (t ∷ ts) = concat t (concat "\n" (join_lines ts))

abbrev pub passages : RetrievalExecution → List String
passages r = map (λ (e : RetrievedEvidence). e.chunk.normalized_text) r.evidence

-- `missing`, from the question and the text in lower case.
unfoldable pub missing_information : String → String → List String
missing_information question text =
    let inspection =
      if contains "inspection" question && not (contains "inspection" text)
      then "inspection" ∷ []
      else [] in
    if contains "estimate" question && not (contains "estimate amount" text)
    then "estimate" ∷ inspection
    else inspection

-- `unsupported`
unfoldable pub is_unsupported : String → String → Bool
is_unsupported question text =
    any_contains ("cause" ∷ "caused" ∷ "why" ∷ []) question
    && any_contains ("no date, inspection" ∷ "cause allocation is unresolved" ∷ []) text

-- `ambiguity`
unfoldable pub ambiguity_indicators : String → List String
ambiguity_indicators text =
    if contains "cause allocation is unresolved" text
    then "cause_allocation_unresolved" ∷ []
    else []

-- The condition for `conflicting_evidence`.
unfoldable pub is_conflicting : String → List FactConflict → Bool
is_conflicting question rows =
    (not (is_empty rows) && any_contains ("date" ∷ "address" ∷ "policy" ∷ "reported" ∷ []) question)
    && not (
        contains "govern" question
        && all (λ (c : FactConflict). str_eq c.fact_type "policy_edition") rows)

-- `state`
unfoldable pub answer_state :
    String → String → List RetrievedEvidence → List FactConflict → AnswerState
answer_state question text evidence rows =
    if not (is_empty (ambiguity_indicators text))
    then AnswerState.ambiguous_evidence
    else if is_empty evidence
        || (not (is_empty (missing_information question text)) || is_unsupported question text)
    then AnswerState.insufficient_evidence
    else if is_conflicting question rows
    then AnswerState.conflicting_evidence
    else AnswerState.answerable

-- `generate`
unfoldable pub generate :
    (String → List String → String) → String → List String → AnswerState → String
generate extract question evidence AnswerState.insufficient_evidence =
    "The available claim evidence is insufficient to answer this question."
generate extract question evidence AnswerState.conflicting_evidence =
    "The available documents contain conflicting evidence. Human review is required; neither value was selected automatically."
generate extract question evidence AnswerState.ambiguous_evidence =
    "The retrieved evidence explicitly leaves this issue unresolved. Human interpretation is required."
generate extract question evidence AnswerState.answerable = extract question evidence

-- `review_status not in {"not_required", "completed"}`
abbrev pub needs_review : Option ReviewStatus → Bool
needs_review none = false
needs_review (some ReviewStatus.completed) = false
needs_review (some _) = true

module _ (py : Python) (extract : String → List String → String) where
  -- The result of `answer` from what was retrieved.
  unfoldable pub grounded :
      String → RetrievalExecution → List FactConflict → Option ReviewStatus → GroundedExecution
  grounded question retrieval rows status =
      let lower_question = py.lower question in
      let lower_text = py.lower (join_lines (passages retrieval)) in
      let state = answer_state lower_question lower_text retrieval.evidence rows in
      record {
        retrieval = retrieval;
        state = state;
        answer = generate extract question (passages retrieval) state;
        missing_information = missing_information lower_question lower_text;
        ambiguity_indicators = ambiguity_indicators lower_text;
        human_review_required = needs_review status;
      }

  -- `GroundedAnswerService.answer`
  unfoldable pub answer : Retrieve → Answer
  answer retrieve claim_id actor question limit = do
    retrieval ← retrieve claim_id actor question limit
    rows ← gets (λ (s : Session). conflicts s.db claim_id actor.tenant_id)
    status ← gets (λ (s : Session). review_status s.db claim_id actor)
    pure (grounded question retrieval rows status)
