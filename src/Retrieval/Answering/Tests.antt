-- ===== src/Retrieval/Answering/Tests.antt =====
-- Runs of the decision on an answer.
use aegisclaims_ai.Prelude.{
  List, String, [], any_contains, contains, none, refl, sym, ◌↔◌, ◌∙◌, ◌≡◌, ◌≢◌,
}
use aegisclaims_ai.Retrieval.Answering.{
  ambiguity_indicators, answer_state, grounded, is_unsupported, join_lines, missing_information,
}
use aegisclaims_ai.Retrieval.Answering.Decision.{
  IsAnswerable, answer_state_iff, grounded_refusal, insufficient≢answerable,
}
use aegisclaims_ai.Retrieval.Types.{AnswerState, RetrievalExecution}
use aegisclaims_ai.Workflow.Fixtures.{passage, plain, roof_claim}

answer_state_iff_example :
    (answer_state "what hail damage?" "hail on the roof" passage.retrieval.evidence []
      ≡ AnswerState.answerable)
    ↔ IsAnswerable "what hail damage?" "hail on the roof" passage.retrieval.evidence []
answer_state_iff_example =
    answer_state_iff "what hail damage?" "hail on the roof" passage.retrieval.evidence []

abbrev quoted : String → List String → String
quoted question texts = join_lines texts

abbrev nothing_found : RetrievalExecution
nothing_found = record { claim = roof_claim; evidence = []; candidate_count = 0 }

estimate_missing :
    (grounded plain quoted "the estimate?" passage.retrieval [] none).state
    ≡ AnswerState.insufficient_evidence
unfolding grounded answer_state ambiguity_indicators missing_information is_unsupported contains
    any_contains
estimate_missing = refl

same_refusal :
    (grounded plain quoted "the estimate?" passage.retrieval [] none).state
    ≡ (grounded plain quoted "the estimate?" nothing_found [] none).state
unfolding grounded answer_state ambiguity_indicators missing_information is_unsupported contains
    any_contains
same_refusal = refl

refused :
    (grounded plain quoted "the estimate?" passage.retrieval [] none).state ≢ AnswerState.answerable
refused h = insufficient≢answerable (sym estimate_missing ∙ h)

grounded_refusal_example :
    (grounded plain quoted "the estimate?" passage.retrieval [] none).answer
    ≡ (grounded plain quoted "the estimate?" nothing_found [] none).answer
grounded_refusal_example =
    grounded_refusal plain quoted "the estimate?" passage.retrieval nothing_found [] [] none
      same_refusal refused
