-- ===== src/Documents/Processing/Tests.antt =====
-- A run of the processing of a text document, whose derived text cannot be stored.
use aegisclaims_ai.Prelude.{[], false, if◌then◌else◌, none, refl, some, str_eq, ◌∷◌, ◌≡◌}
use aegisclaims_ai.Documents.Extraction.{Failure, unavailable_ocr}
use aegisclaims_ai.Documents.Ingestion.{Processor}
use aegisclaims_ai.Documents.Processing.{process}
use aegisclaims_ai.Documents.Processing.Outcome.{IsProcessed, process-IsProcessed}
use aegisclaims_ai.Domain.{DocumentStatus}
use aegisclaims_ai.Prelude.Exec.{ok}
use aegisclaims_ai.Store.{Document, Session}
use aegisclaims_ai.Store.Claims.{get_document}
use aegisclaims_ai.Workflow.Fixtures.{admin_actor, empty_db, plain, plain_indexer, saved_session}

abbrev text_document : Document
text_document = record {
  id = 2;
  tenant_id = 1;
  claim_id = 7;
  name = "notice.txt";
  document_type = "unclassified";
  storage_key = "original";
  normalized_storage_key = some "normalized";
  extraction_artifact_key = some "extraction";
  detected_mime_type = "text/plain";
  checksum_sha256 = "c";
  size_bytes = 1;
  processing_status = DocumentStatus.uploaded;
  extraction_status = "pending";
  page_count = 0;
  injection_risk = false;
  uploaded_by_user_id = some 3;
  error_code = none;
  error_detail = none;
}

abbrev full_disk : Failure
full_disk = record { is_extraction = false; text = "disk full" }

abbrev small_disk : Processor
small_disk = record {
  put_bytes = λ key content mime. if str_eq key "normalized" then some full_disk else none;
  get_bytes = λ key. ok (65 ∷ []);
  readers = record {
    decode = λ content. some "Notice of loss";
    read_pdf = λ content. none;
    find_matches = λ t page. [];
    squeeze = λ s. s;
  };
  ocr = unavailable_ocr;
  indexer = plain_indexer;
  digest = λ content. "c";
  encode = λ s. [];
  number_text = λ n. "";
  dump_artifact = λ id method pages. method;
  text_of = λ t. "";
  fact_id = λ id f. id;
}

abbrev uploaded_session : Session
uploaded_session = saved_session (record empty_db { documents = text_document ∷ [] })

process-IsProcessed_example :
    (new : Document) × (t : Session) × (process plain small_disk admin_actor "corr-1" 2
        (some (65 ∷ []))
        uploaded_session
      ≡ (ok new, t))
    × IsProcessed 2 admin_actor uploaded_session new t
unfolding get_document
process-IsProcessed_example =
    process-IsProcessed 2 admin_actor plain small_disk "corr-1" (65 ∷ []) uploaded_session
      text_document refl refl
