-- ===== src/Retrieval/Search.antt =====
-- retrieval/search.py: `SqlHybridVectorIndex.search`, and `RetrievalService.retrieve` of
-- retrieval/service.py. Scores are of an abstract type `F`, since they are floating point.
pub mod Found
pub mod Retrieved
use aegisclaims_ai.Prelude.{
  Bool, List, Option, String, [], any, any_contains, contains, false, filter, if◌then◌else◌, length,
  map, none, not, some, str_eq, str_lt, take, ℕ, ◌&&◌, ◌+◌, ◌==◌, ◌||◌, ◌∷◌,
}
use aegisclaims_ai.Prelude.Exec.{gets, or_raise, pure, raise, ◌>>=◌, ◌>>◌}
use aegisclaims_ai.Prelude.Python.{Python}
use aegisclaims_ai.Retrieval.Answering.{Retrieve}
use aegisclaims_ai.Retrieval.Indexing.{
  Indexer, Indexing, embedding_version, index_claim, is_ready_index,
}
use aegisclaims_ai.Retrieval.Types.{RetrievedEvidence, claim_not_found, embedding_failed}
use aegisclaims_ai.Store.{Db, DocumentIndex, RetrievalChunk, Session}
use aegisclaims_ai.Store.Claims.{get_for_actor, sort_by}

pub record Scoring (F : Type 0) : Type 0 where
  -- The share of the question's tokens in a text, and the product with the chunk's vector.
  pub lexical_score : String → String → F
  pub vector_score : String → RetrievalChunk → F
  -- `lexical > 0 or vector > 0.08`
  pub is_relevant : F → F → Bool
  pub greater : F → F → Bool
  -- The fusion of the lexical and the vector rank, lowered for another edition.
  pub fuse : ℕ → ℕ → Bool → F

-- An entry of `scored`.
pub record ScoredChunk (F : Type 0) : Type 0 where
  pub chunk : RetrievalChunk
  pub lexical : F
  pub vector : F
  pub applicability : String

-- An entry of `fused`; the scores that only a reader sees are left out.
pub record FusedChunk (F : Type 0) : Type 0 where
  pub chunk : RetrievalChunk
  pub score : F
  pub applicability : String

-- `chunk.policy_edition and chunk.policy_edition != edition`
abbrev pub has_other_edition : String → Option String → Bool
has_other_edition edition none = false
has_other_edition edition (some e) = not (str_eq e "") && not (str_eq e edition)

-- The query: chunks of the claim in a ready index of the current embedding.
unfoldable pub is_candidate : Db → ℕ → ℕ → RetrievalChunk → Bool
is_candidate db tenant claim c =
    c.tenant_id == tenant
    && (c.claim_id == claim
        && (any (λ (i : DocumentIndex). i.id == c.index_id && is_ready_index i) db.indexes
            && str_eq c.embedding_version embedding_version))

-- The conditions of the three `continue` statements, on texts in lower case.
unfoldable pub is_skipped : String → String → String → RetrievalChunk → Bool
is_skipped edition question text c =
    (str_eq c.document_type "policy_document" && has_other_edition edition c.policy_edition)
    || ((has_other_edition edition c.policy_edition
          && any_contains ("govern" ∷ "applicable policy" ∷ []) question)
        || (contains "unrelated" text
            && (contains "no claim evidence" text
                && not (any_contains ("landscaping" ∷ "shrub" ∷ []) question))))

abbrev pub applicability_of : String → RetrievalChunk → String
applicability_of edition c =
    if has_other_edition edition c.policy_edition
    then "submitted_edition_mismatch"
    else "applicable"

-- What `embed` of the question raises, if it does.
abbrev pub raise_some : Option String → Indexing (Unit {0})
raise_some none = pure tt
raise_some (some e) = raise (embedding_failed e)

module _ {F : Type 0} (py : Python) (scoring : Scoring F) where
  unfoldable pub scored_chunk : String → String → RetrievalChunk → ScoredChunk F
  scored_chunk edition question c = record {
    chunk = c;
    lexical = scoring.lexical_score question c.normalized_text;
    vector = scoring.vector_score question c;
    applicability = applicability_of edition c;
  }

  abbrev pub is_scored : String → String → RetrievalChunk → Bool
  is_scored edition question c =
      not (is_skipped edition (py.lower question) (py.lower c.normalized_text) c)
      && scoring.is_relevant (scoring.lexical_score question c.normalized_text)
          (scoring.vector_score question c)

  -- `scored`
  unfoldable pub scored : String → String → List RetrievalChunk → List (ScoredChunk F)
  scored edition question cs =
      map (scored_chunk edition question) (filter (is_scored edition question) cs)

  -- The order by `(-score, chunk_identifier)`.
  abbrev pub ranks_before : F → String → F → String → Bool
  ranks_before a x b y = scoring.greater a b || (not (scoring.greater b a) && str_lt x y)

  unfoldable pub by_lexical : List (ScoredChunk F) → List (ScoredChunk F)
  by_lexical = sort_by (λ (a : ScoredChunk F) (b : ScoredChunk F).
      ranks_before a.lexical a.chunk.chunk_identifier b.lexical b.chunk.chunk_identifier)

  unfoldable pub by_vector : List (ScoredChunk F) → List (ScoredChunk F)
  by_vector = sort_by (λ (a : ScoredChunk F) (b : ScoredChunk F).
      ranks_before a.vector a.chunk.chunk_identifier b.vector b.chunk.chunk_identifier)

  -- `{item[0].id: rank for rank, item in enumerate(order, 1)}[id]`. Identifiers are a primary key,
  -- and each is in the order, so the first match is the only one and there is one.
  unfoldable pub rank_of : ℕ → ℕ → List (ScoredChunk F) → ℕ
  rank_of id n [] = n
  rank_of id n (x ∷ xs) = if x.chunk.id == id then n else rank_of id (n + 1) xs

  unfoldable pub fused_chunk :
      List (ScoredChunk F) → List (ScoredChunk F) → ScoredChunk F → FusedChunk F
  fused_chunk lexical_order vector_order x = record {
    chunk = x.chunk;
    score =
        scoring.fuse (rank_of x.chunk.id 1 lexical_order) (rank_of x.chunk.id 1 vector_order)
          (str_eq x.applicability "submitted_edition_mismatch");
    applicability = x.applicability;
  }

  -- `fused`, sorted
  unfoldable pub fused : List (ScoredChunk F) → List (FusedChunk F)
  fused xs =
      sort_by
        (λ (a : FusedChunk F) (b : FusedChunk F).
          ranks_before a.score a.chunk.chunk_identifier b.score b.chunk.chunk_identifier)
        (map (fused_chunk (by_lexical xs) (by_vector xs)) xs)

  -- `enumerate(..., 1)`
  unfoldable pub ranked : ℕ → List (FusedChunk F) → List RetrievedEvidence
  ranked n [] = []
  ranked n (x ∷ xs) =
      record { chunk = x.chunk; rank = n; applicability_status = x.applicability }
      ∷ ranked (n + 1) xs

  -- `search`: the evidence and `candidate_count`
  unfoldable pub search : Db → ℕ → ℕ → String → String → ℕ → List RetrievedEvidence × ℕ
  search db tenant claim question edition limit =
      let found =
        fused (scored edition question (filter (is_candidate db tenant claim) db.chunks)) in
      (ranked 1 (take limit found), length found)

  -- `retrieve`
  unfoldable pub retrieve : Indexer → Retrieve
  retrieve ix claim_id actor question limit = do
    found ← gets (λ (s : Session). get_for_actor s.db claim_id actor)
    claim ← or_raise found claim_not_found
    index_claim ix claim.id actor.tenant_id
    raise_some (ix.embed_error (question ∷ []))
    gets (λ (s : Session).
        let result = search s.db actor.tenant_id claim.id question claim.policy_edition limit in
        record { claim = claim; evidence = result.0; candidate_count = result.1 })
