-- ===== src/Retrieval/Types.antt =====
-- What retrieval hands to its clients: the result records of retrieval/search.py and
-- retrieval/service.py, and the identifier of a citation. The timings and the floating-point scores
-- are left out, since no client decides by them.
use Prim.Native.String.{◌++◌}
use aegisclaims_ai.Prelude.{Bool, List, String, str_take, ℕ}
use aegisclaims_ai.Domain.{Actor}
use aegisclaims_ai.Prelude.Exec.{Exec}
use aegisclaims_ai.Prelude.Python.{Python}
use aegisclaims_ai.Store.{Claim, RetrievalChunk, Session}

-- `RetrievedEvidence`
pub record RetrievedEvidence : Type 0 where
  pub chunk : RetrievalChunk
  pub rank : ℕ
  pub applicability_status : String

-- `RetrievalExecution`
pub record RetrievalExecution : Type 0 where
  pub claim : Claim
  pub evidence : List RetrievedEvidence
  pub candidate_count : ℕ

-- The values of `GroundedExecution.state`.
pub data AnswerState : Type 0 where
  answerable insufficient_evidence conflicting_evidence ambiguous_evidence : AnswerState

-- `GroundedExecution`
pub record GroundedExecution : Type 0 where
  pub retrieval : RetrievalExecution
  pub state : AnswerState
  pub answer : String
  pub missing_information : List String
  pub ambiguity_indicators : List String
  pub human_review_required : Bool

-- What a client raises is a `LookupError`, or the text of another exception.
pub data RetrievalError : Type 0 where
  claim_not_found : RetrievalError
  document_not_found : RetrievalError
  embedding_failed : String → RetrievalError

-- `GroundedAnswerService.answer`: the claim, the actor, the question and the limit.
abbrev pub Answer : Type 0
Answer = ℕ → Actor → String → ℕ → Exec RetrievalError Session GroundedExecution

-- `stable_citation_id`
unfoldable pub stable_citation_id : Python → String → String
stable_citation_id py chunk_identifier =
    "CIT-" ++ py.upper (str_take 16 (py.sha256 chunk_identifier))
