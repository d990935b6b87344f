-- ===== src/Documents/Ingestion.antt =====
-- documents/ingestion.py: `DocumentIngestionService` over the session. What the `try` of `process`
-- runs is cut at its commits: `receive`, `extract`, `classify` and `complete`.
use Prim.Native.String.{◌++◌ as concat}
use aegisclaims_ai.Prelude.{
  List, Option, String, [], false, filter, length, map, none, not, some, update_where, ℕ, ◌++◌, ◌+◌,
  ◌==◌, ◌∷◌,
}
use aegisclaims_ai.Documents.Classification.{classify_document, detect_injection_risk}
use aegisclaims_ai.Documents.Conflicts.{rebuild_conflicts}
use aegisclaims_ai.Documents.Extraction.{
  ExtractedFact, Failure, OcrAdapter, Readers, extract_pages, extract_structured_facts,
}
use aegisclaims_ai.Documents.Upload.{Bytes, Rejection}
use aegisclaims_ai.Domain.{Actor, DocumentStatus}
use aegisclaims_ai.Prelude.Exec.{Exec, Result, err, ok, or_raise, pure, raise, ◌>>=◌, ◌>>◌}
use aegisclaims_ai.Prelude.Python.{Python}
use aegisclaims_ai.Retrieval.Chunking.{Text}
use aegisclaims_ai.Retrieval.Indexing.{Indexer, index_document}
use aegisclaims_ai.Retrieval.Types.{RetrievalError, embedding_failed}
use aegisclaims_ai.Store.{
  Db, Document, DocumentFact, DocumentPage, ProcessingEvent, Session, commit, write,
}

-- `ObjectStorage`, where a call may raise, and what the processing computes by libraries.
pub record Processor : Type 0 where
  pub put_bytes : String → Bytes → String → Option Failure
  pub get_bytes : String → Result Failure Bytes
  pub readers : Readers
  pub ocr : OcrAdapter
  pub indexer : Indexer
  pub digest : Bytes → String
  pub encode : String → Bytes
  pub number_text : ℕ → String
  pub dump_artifact : ℕ → String → List String → String
  pub text_of : Text → String
  pub fact_id : ℕ → ExtractedFact → ℕ

-- What `ingest` and `process` raise.
pub data IngestionError : Type 0 where
  claim_not_found document_not_found document_lost : IngestionError
  rejected : Rejection → IngestionError
  duplicate_document : ℕ → IngestionError
  storage_failed : Failure → IngestionError

abbrev pub Processing : Type 0 → Type 0
Processing = Exec Failure Session

abbrev pub status_name : DocumentStatus → String
status_name DocumentStatus.uploaded = "document.uploaded"
status_name DocumentStatus.validating = "document.validating"
status_name DocumentStatus.stored = "document.stored"
status_name DocumentStatus.extracting = "document.extracting"
status_name DocumentStatus.classifying = "document.classifying"
status_name DocumentStatus.normalizing = "document.normalizing"
status_name DocumentStatus.ready = "document.ready"
status_name DocumentStatus.failed = "document.failed"
status_name DocumentStatus.rejected = "document.rejected"

-- `_audit`
unfoldable pub audited : Actor → String → String → ℕ → String → String → Db → Db
audited actor action resource_type resource_id correlation_id outcome db = record db {
  audits =
      db.audits
      ++ record {
        tenant_id = actor.tenant_id;
        actor_user_id = some actor.user_id;
        action = action;
        resource_type = resource_type;
        resource_id = resource_id;
        outcome = outcome;
        correlation_id = correlation_id;
      }
        ∷ [];
}

-- The attributes of a loaded document are written to its row.
abbrev pub write_document : Document → Db → Db
write_document d db = record db {
  documents = update_where (λ (x : Document). x.id == d.id) (λ _. d) db.documents;
}

abbrev pub event_row : Document → DocumentStatus → String → String → ProcessingEvent
event_row d status detail correlation_id = record {
  tenant_id = d.tenant_id;
  document_id = d.id;
  status = status;
  detail = detail;
  correlation_id = correlation_id;
}

-- `_transition`, which writes the attributes that were assigned before it too.
unfoldable pub transition : Actor → String → String → String → Document → Db → Db
transition actor correlation_id detail outcome d db =
    audited actor (status_name d.processing_status) "document" d.id correlation_id outcome (
      write_document d (record db {
        processing_events =
            db.processing_events ++ event_row d d.processing_status detail correlation_id ∷ [];
      }))

abbrev pub with_status : DocumentStatus → Document → Document
with_status status d = record d { processing_status = status }

-- A call of `_transition`, and the commit after it.
unfoldable pub advance :
    {E : Type 0}
    → Actor
    → String
    → DocumentStatus
    → String
    → String
    → Document
    → Exec E Session Document
advance actor correlation_id status detail outcome d = do
  write (transition actor correlation_id detail outcome (with_status status d))
  commit
  pure (with_status status d)

abbrev pub fail_with : Option Failure → Processing (Unit {0})
fail_with none = pure tt
fail_with (some e) = raise e

abbrev pub assertion_failure : Failure
assertion_failure = record { is_extraction = false; text = "" }

-- The exceptions of the indexing.
abbrev pub index_failure : RetrievalError → Failure
index_failure RetrievalError.claim_not_found = record {
  is_extraction = false;
  text = "claim not found";
}
index_failure RetrievalError.document_not_found = record {
  is_extraction = false;
  text = "document not found";
}
index_failure (embedding_failed text) = record { is_extraction = false; text = text }

abbrev pub or_index_failure :
    Result RetrievalError (Unit {0}) × Session → Result Failure (Unit {0}) × Session
or_index_failure (ok u, s) = (ok u, s)
or_index_failure (err e, s) = (err (index_failure e), s)

-- The rows of the pages, from page `number`.
unfoldable pub page_rows : Python → Document → String → ℕ → List String → List DocumentPage
page_rows py d method number [] = []
page_rows py d method number (text ∷ texts) =
    record {
      tenant_id = d.tenant_id;
      document_id = d.id;
      page_number = number;
      text = text;
      text_sha256 = py.sha256 text;
      extraction_method = method;
    }
    ∷ page_rows py d method (number + 1) texts

-- The pages and facts of the document are replaced by these pages.
unfoldable pub replace_pages : Python → Document → String → List String → Db → Db
replace_pages py d method texts db = record db {
  pages =
      filter (λ (p : DocumentPage). not (p.document_id == d.id)) db.pages
      ++ page_rows py d method 1 texts;
  facts = filter (λ (f : DocumentFact). not (f.document_id == d.id)) db.facts;
}

unfoldable pub fact_row : Processor → Document → ExtractedFact → DocumentFact
fact_row pr d f = record {
  id = pr.fact_id d.id f;
  tenant_id = d.tenant_id;
  claim_id = d.claim_id;
  document_id = d.id;
  page_number = f.page_number;
  fact_type = f.fact_type;
  raw_source_span = f.raw_source_span;
  normalized_value = f.normalized_value;
  document_name = d.name;
}

-- `"\n\n".join(f"--- Page {i} ---\n{text}" for i, text in enumerate(pages, 1))`
unfoldable pub page_texts : Processor → ℕ → List String → List String
page_texts pr number [] = []
page_texts pr number (text ∷ texts) =
    concat "--- Page " (concat (pr.number_text number) (concat " ---\n" text))
    ∷ page_texts pr (number + 1) texts

-- `"\n\n".join(...)`
abbrev pub join_pages : List String → String
join_pages [] = ""
join_pages (t ∷ []) = t
join_pages (t ∷ ts) = concat t (concat "\n\n" (join_pages ts))

module _ (py : Python) (pr : Processor) (actor : Actor) (correlation_id : String) where
  -- From the conflicts on.
  unfoldable pub finish : Document → Processing Document
  finish d = do
    write (rebuild_conflicts d.claim_id d.tenant_id)
    λ s. or_index_failure (index_document pr.indexer d.id s)
    advance actor correlation_id DocumentStatus.ready "Document processing completed" "success"
        (record d { error_code = none; error_detail = none })

  -- From the writing of the derived files on.
  unfoldable pub complete : Document → List String → String → Processing Document
  complete d pages method = do
    let facts = extract_structured_facts py pr.readers 1 pages
    write (λ db. record db { facts = db.facts ++ map (fact_row pr d) facts })
    normalized_key ← or_raise d.normalized_storage_key assertion_failure
    artifact_key ← or_raise d.extraction_artifact_key assertion_failure
    fail_with
        (pr.put_bytes normalized_key (pr.encode (join_pages (page_texts pr 1 pages))) "text/plain")
    fail_with (
        pr.put_bytes artifact_key (pr.encode (pr.dump_artifact d.id method pages))
          "application/json")
    finish d

  unfoldable pub classify : Document → List String → String → Processing Document
  classify d pages method = do
    d' ←
        advance actor correlation_id DocumentStatus.normalizing
          "Structured facts and provenance created" "success"
          (record d {
            document_type = classify_document py d.name pages;
            injection_risk = detect_injection_risk py pages;
          })
    complete d' pages method

  -- What was extracted is written.
  unfoldable pub keep_pages : Document → List String × String → Processing Document
  keep_pages d (pages, method) = do
    write (replace_pages py d method pages)
    d' ←
        advance actor correlation_id DocumentStatus.classifying
          "Deterministic classification started" "success"
          (record d { page_count = length pages; extraction_status = "extracted" })
    classify d' pages method

  abbrev pub from_result : {A : Type 0} → Result Failure A → Processing A
  from_result r s = (r, s)

  unfoldable pub extract : Document → Bytes → Processing Document
  extract d content = do
    d' ←
        advance actor correlation_id DocumentStatus.extracting "Text extraction started" "success" d
    found ← from_result (extract_pages py pr.readers pr.ocr content d'.detected_mime_type)
    keep_pages d' found

  -- The body of the `try`.
  unfoldable pub receive : Document → Bytes → Processing Document
  receive d content = do
    d1 ←
        advance actor correlation_id DocumentStatus.validating "Integrity metadata verified"
          "success" d
    fail_with (pr.put_bytes d1.storage_key content d1.detected_mime_type)
    d2 ← advance actor correlation_id DocumentStatus.stored "Immutable original stored" "success" d1
    extract d2 content
