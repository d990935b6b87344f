-- ===== src/Documents/Processing.antt =====
-- documents/ingestion.py: `process` and `ingest`, whose `try` is `receive`.
pub mod History
pub mod Stages
pub mod Outcome
mod Tests
use Prim.Native.String.{◌++◌ as concat}
use aegisclaims_ai.Prelude.{
  Bool, Option, String, [], false, if◌then◌else◌, length, none, some, str_take, true, ℕ, ◌++◌, ◌∷◌,
}
use aegisclaims_ai.Documents.Extraction.{Failure}
use aegisclaims_ai.Documents.Ingestion.{
  IngestionError, Processor, advance, audited, claim_not_found, document_lost, document_not_found,
  duplicate_document, receive, rejected, storage_failed,
}
use aegisclaims_ai.Documents.Upload.{Bytes, Library, Rejection, validate_upload}
use aegisclaims_ai.Domain.{Actor, DocumentStatus}
use aegisclaims_ai.Prelude.Exec.{Exec, Result, err, gets, ok, or_raise, pure, raise, ◌>>=◌, ◌>>◌}
use aegisclaims_ai.Prelude.Python.{Python}
use aegisclaims_ai.Retrieval.Chunking.{Text}
use aegisclaims_ai.Store.{Db, Document, Session, commit, rollback, write}
use aegisclaims_ai.Store.Claims.{documents, duplicate, get_document, get_for_actor}

abbrev pub Ingestion : Type 0 → Type 0
Ingestion = Exec IngestionError Session

abbrev pub is_ready : DocumentStatus → Bool
is_ready DocumentStatus.ready = true
is_ready _ = false

abbrev pub error_code_of : Failure → String
error_code_of e = if e.is_extraction then "extraction_failed" else "processing_failed"

module _ (py : Python) (pr : Processor) (actor : Actor) (correlation_id : String) where
  -- The attributes that the `except` assigns.
  abbrev pub failed_document : Failure → Document → Document
  failed_document e d = record d {
    extraction_status = "failed";
    error_code = some (error_code_of e);
    error_detail = some (str_take 500 e.text);
  }

  -- The body of the `except`.
  unfoldable pub record_failure : ℕ → Failure → Ingestion Document
  record_failure document_id e = do
    rollback
    found ← gets (λ (s : Session). get_document s.db document_id actor)
    d ← or_raise found document_lost
    advance actor correlation_id DocumentStatus.failed (str_take 500 e.text) "failure"
        (failed_document e d)

  -- What follows the `try`.
  abbrev pub conclude_processing :
      ℕ → Result Failure Document × Session → Result IngestionError Document × Session
  conclude_processing document_id (ok d, s) = (ok d, s)
  conclude_processing document_id (err e, s) = record_failure document_id e s

  -- `content`, or what is stored.
  abbrev pub content_of : Option Bytes → Document → Ingestion Bytes
  content_of (some content) d = pure content
  content_of none d = elim (pr.get_bytes d.storage_key) [
    | ok content ↦ pure content
    | err e ↦ raise (storage_failed e)
  ]

  -- From a document that is not ready on.
  unfoldable pub process_document : Document → Option Bytes → Ingestion Document
  process_document d content = do
    bytes ← content_of content d
    λ s. conclude_processing d.id (receive py pr actor correlation_id d bytes s)

  -- `process`
  unfoldable pub process : ℕ → Option Bytes → Ingestion Document
  process document_id content = do
    found ← gets (λ (s : Session). get_document s.db document_id actor)
    d ← or_raise found document_not_found
    if is_ready d.processing_status then pure d else process_document d content

-- The new row of `ingest`.
unfoldable pub new_document : Processor → Actor → ℕ → ℕ → Text → String → String → Bytes → Document
new_document pr actor claim_id document_id name suffix mime content =
    let checksum = pr.digest content in
    let base =
      concat (pr.number_text actor.tenant_id)
        (concat "/" (concat (pr.number_text claim_id) (concat "/" (pr.number_text document_id)))) in
    record {
      id = document_id;
      tenant_id = actor.tenant_id;
      claim_id = claim_id;
      name = pr.text_of name;
      document_type = "unclassified";
      storage_key = concat base (concat "/original/" (concat checksum suffix));
      normalized_storage_key = some (concat base "/derived/normalized.txt");
      extraction_artifact_key = some (concat base "/derived/extraction.json");
      detected_mime_type = mime;
      checksum_sha256 = checksum;
      size_bytes = length content;
      processing_status = DocumentStatus.uploaded;
      extraction_status = "pending";
      page_count = 0;
      injection_risk = false;
      uploaded_by_user_id = some actor.user_id;
      error_code = none;
      error_detail = none;
    }

abbrev pub add_document : Document → Db → Db
add_document d db = record db { documents = db.documents ++ d ∷ [] }

module _ (py : Python) (lib : Library) (pr : Processor) (actor : Actor)
    (correlation_id : String) where
  -- An audit row, the commit, and the exception.
  unfoldable pub refuse : String → String → ℕ → IngestionError → Ingestion Document
  refuse action resource_type resource_id e = do
    write (audited actor action resource_type resource_id correlation_id "rejected")
    commit
    raise e

  -- An upload that has passed the checks.
  unfoldable pub accept_upload : ℕ → ℕ → Bytes → Text × String → Ingestion Document
  accept_upload document_id claim_id content (name, mime) = do
    existing ← gets (λ (s : Session). duplicate s.db actor.tenant_id claim_id (pr.digest content))
    elim existing [
      | some d ↦ refuse "document.upload.duplicate" "document" d.id (duplicate_document d.id)
      | none ↦ do
        let d = new_document pr actor claim_id document_id name (lib.suffix name) mime content
        write (add_document d)
        advance actor correlation_id DocumentStatus.uploaded "Upload accepted" "success" d
        process py pr actor correlation_id document_id (some content)
    ]

  -- What follows the checks.
  abbrev pub after_checks : ℕ → ℕ → Bytes → Result Rejection (Text × String) → Ingestion Document
  after_checks document_id claim_id content (err e) =
      refuse "document.validation.failed" "claim" claim_id (rejected e)
  after_checks document_id claim_id content (ok checked) =
      accept_upload document_id claim_id content checked

  -- `ingest`
  unfoldable pub ingest : ℕ → ℕ → Text → Option String → Bytes → Ingestion Document
  ingest document_id claim_id filename declared content = do
    found ← gets (λ (s : Session). get_for_actor s.db claim_id actor)
    or_raise found claim_not_found
    after_checks document_id claim_id content (validate_upload lib filename declared content tt).0
