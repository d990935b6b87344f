-- ===== src/Retrieval/Indexing.antt =====
-- retrieval/indexing.py: `DocumentIndexingService`. The chunker, the embedding provider and fresh
-- identifiers are arguments; the vectors are not kept, since only the scores of a search read them.
pub mod Tables
use aegisclaims_ai.Prelude.{
  Bool, List, Option, String, [], false, filter, find, if◌then◌else◌, is_some, length, ltb, map,
  none, not, some, str_eq, str_lt, true, update_where, ℕ, ◌&&◌, ◌++◌, ◌==◌, ◌∷◌,
}
use aegisclaims_ai.Domain.{DocumentStatus}
use aegisclaims_ai.Prelude.Exec.{Exec, err, gets, ok, or_raise, pure, ◌>>=◌, ◌>>◌}
use aegisclaims_ai.Retrieval.Chunking.{DeterministicChunk, Text}
use aegisclaims_ai.Retrieval.Types.{RetrievalError, document_not_found, embedding_failed}
use aegisclaims_ai.Store.{
  Db, Document, DocumentFact, DocumentIndex, DocumentPage, IndexStatus, RetrievalChunk, Session,
  write,
}
use aegisclaims_ai.Store.Claims.{sort_by}

pub record Indexer : Type 0 where
  -- The code points of a text, and a text of code points.
  pub codes : String → Text
  pub of_codes : Text → String
  -- `chunk_page` of the document, the page's checksum and its text
  pub chunk_page : ℕ → String → Text → List DeterministicChunk
  -- The exception that `embed` raises, if it does.
  pub embed_error : List String → Option String
  -- The identifiers of the index of a document and of a chunk of an index.
  pub index_id : ℕ → ℕ
  pub chunk_id : ℕ → String → ℕ

abbrev pub chunker_version : String
chunker_version = "page_window_chars_700_overlap_100_v1"

abbrev pub embedding_version : String
embedding_version = "signed_token_hash_64_v1"

-- The query for an index of the document as it is.
unfoldable pub index_of : Document → DocumentIndex → Bool
index_of d i =
    i.document_id == d.id
    && (str_eq i.source_checksum d.checksum_sha256
        && (str_eq i.chunker_version chunker_version
            && str_eq i.embedding_version embedding_version))

abbrev pub is_ready_index : DocumentIndex → Bool
is_ready_index i = elim i.status [ IndexStatus.ready ↦ true | _ ↦ false ]

abbrev pub first_of : List String → Option String
first_of [] = none
first_of (x ∷ xs) = some x

-- The first of the document's policy editions in the order of text.
unfoldable pub policy_edition_of : Db → Document → Option String
policy_edition_of db d =
    let editions =
      filter (λ (f : DocumentFact). f.document_id == d.id && str_eq f.fact_type "policy_edition")
        db.facts in
    first_of (sort_by str_lt (map (λ (f : DocumentFact). f.normalized_value) editions))

unfoldable pub pages_of : Db → Document → List DocumentPage
pages_of db d =
    sort_by (λ (a : DocumentPage) (b : DocumentPage). ltb a.page_number b.page_number)
      (filter (λ (p : DocumentPage). p.document_id == d.id) db.pages)

unfoldable pub new_index : Indexer → Document → DocumentIndex
new_index ix d = record {
  id = ix.index_id d.id;
  tenant_id = d.tenant_id;
  claim_id = d.claim_id;
  document_id = d.id;
  source_checksum = d.checksum_sha256;
  chunker_version = chunker_version;
  embedding_version = embedding_version;
  status = IndexStatus.indexing;
  chunk_count = 0;
}

-- The chunks of one page, each with its page.
unfoldable pub with_page :
    DocumentPage → List DeterministicChunk → List (DocumentPage × DeterministicChunk)
with_page p [] = []
with_page p (c ∷ cs) = (p, c) ∷ with_page p cs

-- `pending`
unfoldable pub pending :
    Indexer → Document → List DocumentPage → List (DocumentPage × DeterministicChunk)
pending ix d [] = []
pending ix d (p ∷ ps) =
    with_page p (ix.chunk_page d.id p.text_sha256 (ix.codes p.text)) ++ pending ix d ps

unfoldable pub chunk_row :
    Indexer → Document → ℕ → Option String → DocumentPage × DeterministicChunk → RetrievalChunk
chunk_row ix d index edition (p, c) = record {
  id = ix.chunk_id index c.identifier;
  index_id = index;
  tenant_id = d.tenant_id;
  claim_id = d.claim_id;
  document_id = d.id;
  page_number = p.page_number;
  chunk_identifier = c.identifier;
  chunk_ordinal = c.ordinal;
  document_type = d.document_type;
  policy_edition = edition;
  source_checksum = d.checksum_sha256;
  page_checksum = p.text_sha256;
  normalized_text = ix.of_codes c.text;
  source_start = c.source_start;
  source_end = c.source_end;
  embedding_version = embedding_version;
  injection_risk = d.injection_risk;
  document_name = d.name;
}

-- The change of an index's row.
abbrev pub set_index : ℕ → (DocumentIndex → DocumentIndex) → Db → Db
set_index id f db = record db {
  indexes = update_where (λ (i : DocumentIndex). i.id == id) f db.indexes;
}

-- The index is in the table, without chunks.
unfoldable pub cleared : Bool → DocumentIndex → Db → Db
cleared exists index db = record db {
  indexes = if exists then db.indexes else db.indexes ++ index ∷ [];
  chunks = filter (λ (c : RetrievalChunk). not (c.index_id == index.id)) db.chunks;
}

unfoldable pub filled :
    Indexer → Document → ℕ → Option String → List (DocumentPage × DeterministicChunk) → Db → Db
filled ix d index edition chunks db =
    set_index index (λ i. record i { status = IndexStatus.ready; chunk_count = length chunks })
      (record db { chunks = db.chunks ++ map (chunk_row ix d index edition) chunks })

abbrev pub Indexing : Type 0 → Type 0
Indexing = Exec RetrievalError Session

-- What follows the chunking: the vectors, and the rows.
unfoldable pub fill :
    Indexer
    → Document
    → DocumentIndex
    → List (DocumentPage × DeterministicChunk)
    → Indexing (Unit {0})
fill ix d index chunks s =
    elim (ix.embed_error
      (map (λ (c : DocumentPage × DeterministicChunk). ix.of_codes c.1.text) chunks)) [
        | some e ↦ (
          err (embedding_failed e),
          record s { db = set_index index.id (λ i. record i { status = IndexStatus.failed }) s.db },
        )
        | none ↦
            (ok tt, record s { db = filled ix d index.id (policy_edition_of s.db d) chunks s.db })
      ]

-- `existing or DocumentIndexModel(...)`
abbrev pub existing_or : Option DocumentIndex → DocumentIndex → DocumentIndex
existing_or none new = new
existing_or (some i) new = i

-- From the new or unfinished index on.
unfoldable pub build_index : Indexer → Document → Option DocumentIndex → Indexing (Unit {0})
build_index ix d existing = do
  let index = existing_or existing (new_index ix d)
  write (cleared (is_some existing) index)
  chunks ← gets (λ (s : Session). pending ix d (pages_of s.db d))
  fill ix d index chunks

abbrev pub is_built : Option DocumentIndex → Bool
is_built none = false
is_built (some i) = is_ready_index i

-- `index_document`. No caller uses the index that it returns.
unfoldable pub index_document : Indexer → ℕ → Indexing (Unit {0})
index_document ix document_id = do
  found ← gets (λ (s : Session). find (λ (d : Document). d.id == document_id) s.db.documents)
  d ← or_raise found document_not_found
  existing ← gets (λ (s : Session). find (index_of d) s.db.indexes)
  if is_built existing then pure tt else build_index ix d existing

abbrev pub is_ready_document : Document → Bool
is_ready_document d = elim d.processing_status [ DocumentStatus.ready ↦ true | _ ↦ false ]

-- The loop of `index_claim`.
unfoldable pub index_each : Indexer → List Document → Indexing (Unit {0})
index_each ix [] = pure tt
index_each ix (d ∷ ds) = index_document ix d.id >> index_each ix ds

-- `index_claim`
unfoldable pub index_claim : Indexer → ℕ → ℕ → Indexing ℕ
index_claim ix claim_id tenant_id = do
  ds ← gets (λ (s : Session).
      filter
        (λ (d : Document).
          d.claim_id == claim_id && (d.tenant_id == tenant_id && is_ready_document d))
        s.db.documents)
  index_each ix ds
  pure (length ds)
