-- ===== src/Retrieval/Tests.antt =====
-- Runs of the search over one chunk, with scores that are numbers.
use aegisclaims_ai.Prelude.{
  All, List, String, [], any_contains, contains, false, length, ltb, refl, some, ℕ, ◌-◌, ◌∷◌, ◌≡◌,
  ◌≤◌,
}
use aegisclaims_ai.Retrieval.Answering.{answer, join_lines}
use aegisclaims_ai.Retrieval.Indexing.{chunker_version, embedding_version}
use aegisclaims_ai.Retrieval.Search.{
  Scoring, by_lexical, by_vector, fused, fused_chunk, is_candidate, is_skipped, rank_of, ranked,
  retrieve, scored, scored_chunk, search,
}
use aegisclaims_ai.Retrieval.Search.Found.{IsFound, Numbered, search-IsFound}
use aegisclaims_ai.Store.{Db, DocumentIndex, IndexStatus, RetrievalChunk}
use aegisclaims_ai.Store.Claims.{insert_by, sort_by}
use aegisclaims_ai.Workflow.Fixtures.{empty_db, plain, plain_indexer}
use aegisclaims_ai.Workflow.Trail.Loop.{KeepsWorkflows}
use aegisclaims_ai.Workflow.Trail.Searches.{answer_by_search-KeepsWorkflows}

abbrev scores : Scoring ℕ
scores = record {
  lexical_score = λ question text. 1;
  vector_score = λ question c. 1;
  is_relevant = λ lexical vector. ltb 0 lexical;
  greater = λ a b. ltb b a;
  fuse = λ a b other. 200 - a - b;
}

abbrev roof_chunk : RetrievalChunk
roof_chunk = record {
  id = 1;
  index_id = 1;
  tenant_id = 1;
  claim_id = 7;
  document_id = 2;
  page_number = 1;
  chunk_identifier = "chunk-1";
  chunk_ordinal = 0;
  document_type = "estimate";
  policy_edition = some "2023";
  source_checksum = "a";
  page_checksum = "b";
  normalized_text = "hail";
  source_start = 0;
  source_end = 4;
  embedding_version = embedding_version;
  injection_risk = false;
  document_name = "estimate.txt";
}

abbrev roof_index : DocumentIndex
roof_index = record {
  id = 1;
  tenant_id = 1;
  claim_id = 7;
  document_id = 2;
  source_checksum = "a";
  chunker_version = chunker_version;
  embedding_version = embedding_version;
  status = IndexStatus.ready;
  chunk_count = 1;
}

abbrev indexed_db : Db
indexed_db = record empty_db { indexes = roof_index ∷ []; chunks = roof_chunk ∷ [] }

one_is_found : length (search plain scores indexed_db 1 7 "hail?" "2024" 5).0 ≡ 1
unfolding search ranked fused by_lexical by_vector rank_of fused_chunk scored scored_chunk
    is_candidate is_skipped sort_by insert_by any_contains contains
one_is_found = refl

search-IsFound_example :
    All (IsFound indexed_db 1 7 "2024") (search plain scores indexed_db 1 7 "hail?" "2024" 5).0
    × Numbered 1 (search plain scores indexed_db 1 7 "hail?" "2024" 5).0
    × (length (search plain scores indexed_db 1 7 "hail?" "2024" 5).0 ≤ 5)
search-IsFound_example = search-IsFound plain scores indexed_db 1 7 "2024" "hail?" 5

abbrev quoted : String → List String → String
quoted question texts = join_lines texts

answer_by_search-KeepsWorkflows_example :
    KeepsWorkflows (answer plain quoted (retrieve plain scores plain_indexer))
answer_by_search-KeepsWorkflows_example =
    answer_by_search-KeepsWorkflows plain quoted scores plain_indexer
