-- ===== src/Documents/Processing/Stages.antt =====
-- What each part of the `try` of `process` reaches, whether it ends or raises.
use mathlib.Core.Path.{subst}
use aegisclaims_ai.Prelude.{
  List, Option, String, [], arith, length, map, none, refl, some, sym, take, ℕ, ◌++◌, ◌<◌, ◌≡◌,
}
use aegisclaims_ai.Documents.Classification.{classify_document, detect_injection_risk}
use aegisclaims_ai.Documents.Conflicts.{rebuild_conflicts}
use aegisclaims_ai.Documents.Extraction.{Failure, extract_pages, extract_structured_facts}
use aegisclaims_ai.Documents.Ingestion.{
  Processing, Processor, advance, assertion_failure, classify, complete, extract, fact_row,
  fail_with, finish, join_pages, keep_pages, or_index_failure, page_texts, receive, replace_pages,
  with_status,
}
use aegisclaims_ai.Documents.Processing.History.{Reached, stages, transition-Reached}
use aegisclaims_ai.Documents.Upload.{Bytes}
use aegisclaims_ai.Domain.{Actor, DocumentStatus}
use aegisclaims_ai.Prelude.Exec.{Result, continue, err, ok, or_raise}
use aegisclaims_ai.Prelude.Python.{Python}
use aegisclaims_ai.Retrieval.Indexing.{index_document}
use aegisclaims_ai.Retrieval.Indexing.Tables.{IndexesOnly, index_document-IndexesOnly}
use aegisclaims_ai.Retrieval.Types.{RetrievalError}
use aegisclaims_ai.Store.{Db, Document, ProcessingEvent, Session}
use aegisclaims_ai.Store.Claims.{get_document}

module _ (document_id : ℕ) (actor : Actor) (start : List ProcessingEvent) where
  abbrev pub At : ℕ → Document → Db → Type 0
  At n = Reached document_id actor start (take n stages)

  -- The end of the `try`: the document is ready and all is committed; or an exception leaves the
  -- committed tables at one of the stages before.
  abbrev pub Ends : Result Failure Document × Session → Type 0
  Ends (ok d, t) = (t.db ≡ t.saved) × (d.processing_status ≡ DocumentStatus.ready) × At 6 d t.saved
  Ends (err e, t) = (n : ℕ) × (d : Document) × (n < 6) × At n d t.saved

  pub or_raise-Ends :
      {A : Type 0} (o : Option A) (e : Failure) (s : Session) (f : A → Processing Document) (n : ℕ)
      (d : Document)
      → n < 6
      → At n d s.saved
      → ((a : A) → Ends (f a s))
      → Ends (continue (or_raise o e s).0 f (or_raise o e s).1)
  or_raise-Ends none e s f n d lt r k = (n, d, lt, r)
  or_raise-Ends (some a) e s f n d lt r k = k a

  pub fail_with-Ends :
      (o : Option Failure) (s : Session) (f : Unit {0} → Processing Document) (n : ℕ) (d : Document)
      → n < 6
      → At n d s.saved
      → Ends (f tt s)
      → Ends (continue (fail_with o s).0 f (fail_with o s).1)
  fail_with-Ends none s f n d lt r k = k
  fail_with-Ends (some e) s f n d lt r k = (n, d, lt, r)

  pub from_result-Ends :
      {A : Type 0} (x : Result Failure A) (s : Session) (f : A → Processing Document) (n : ℕ)
      (d : Document)
      → n < 6
      → At n d s.saved
      → ((a : A) → Ends (f a s))
      → Ends (continue x f s)
  from_result-Ends (ok a) s f n d lt r k = k a
  from_result-Ends (err e) s f n d lt r k = (n, d, lt, r)

  pub index-Ends :
      (x : Result RetrievalError (Unit {0}) × Session) (s : Session)
      (f : Unit {0} → Processing Document) (n : ℕ) (d : Document)
      → IndexesOnly x.1 s
      → n < 6
      → At n d s.saved
      → ((t : Session) → IndexesOnly t s → Ends (f tt t))
      → Ends (continue (or_index_failure x).0 f (or_index_failure x).1)
  index-Ends (ok u, t) s f n d only lt r k = k t only
  index-Ends (err e, t) s f n d only lt r k = (n, d, lt, subst (At n d) (sym only.saved) r)

  -- A table of indexes or chunks does not matter.
  pub At-IndexesOnly :
      (n : ℕ) (d : Document) (t s : Session) → IndexesOnly t s → At n d s.db → At n d t.db
  unfolding get_document
  At-IndexesOnly n d t s only r =
      subst (At n d) (sym only.tables)
        (record { row = r.row; news = r.news; events = r.events; statuses = r.statuses })

  module _ (py : Python) (pr : Processor) (correlation_id : String) where
    pub finish-Ends :
        (d : Document) (s : Session)
        → At 5 d s.db
        → At 5 d s.saved
        → Ends (finish py pr actor correlation_id d s)
    unfolding finish advance get_document rebuild_conflicts
    finish-Ends d s now kept =
        let new : Document = record d {
          error_code = none;
          error_detail = none;
          processing_status = DocumentStatus.ready;
        } in
        let s1 : Session = record s { db = rebuild_conflicts d.claim_id d.tenant_id s.db } in
        let r : At 5 d s1.db = record {
          row = now.row;
          news = now.news;
          events = now.events;
          statuses = now.statuses;
        } in
        index-Ends (index_document pr.indexer d.id s1) s1
          (λ _.
            advance actor correlation_id DocumentStatus.ready "Document processing completed"
              "success" (record d { error_code = none; error_detail = none }))
          5 d (index_document-IndexesOnly pr.indexer d.id s1) (omega arith) kept
          (λ t only. (
            refl,
            refl,
            transition-Reached document_id actor start (take 5 stages) d t.db actor correlation_id
                "Document processing completed" "success" new (At-IndexesOnly 5 d t s1 only r) refl
                refl refl,
          ))

    pub complete-Ends :
        (d : Document) (pages : List String) (method : String) (s : Session)
        → At 5 d s.db
        → At 5 d s.saved
        → Ends (complete py pr actor correlation_id d pages method s)
    unfolding complete get_document
    complete-Ends d pages method s now kept =
        let rows = map (fact_row pr d) (extract_structured_facts py pr.readers 1 pages) in
        let s1 : Session = record s { db = record s.db { facts = s.db.facts ++ rows } } in
        let text = join_pages (page_texts pr 1 pages) in
        let artifact = pr.dump_artifact d.id method pages in
        let done =
          finish-Ends d s1
            (record {
              row = now.row;
              news = now.news;
              events = now.events;
              statuses = now.statuses;
            })
            kept in
        or_raise-Ends d.normalized_storage_key assertion_failure s1 _ 5 d (omega arith) kept (λ key.
          or_raise-Ends d.extraction_artifact_key assertion_failure s1 _ 5 d (omega arith) kept
            (λ key'.
              fail_with-Ends (pr.put_bytes key (pr.encode text) "text/plain") s1 _ 5 d (omega arith)
                kept
                (fail_with-Ends (pr.put_bytes key' (pr.encode artifact) "application/json") s1
                  (λ _. finish py pr actor correlation_id d) 5 d (omega arith) kept done)))

    pub classify-Ends :
        (d : Document) (pages : List String) (method : String) (s : Session)
        → At 4 d s.db
        → Ends (classify py pr actor correlation_id d pages method s)
    unfolding classify advance
    classify-Ends d pages method s now =
        let new : Document = record d {
          document_type = classify_document py d.name pages;
          injection_risk = detect_injection_risk py pages;
          processing_status = DocumentStatus.normalizing;
        } in
        let r =
          transition-Reached document_id actor start (take 4 stages) d s.db actor correlation_id
            "Structured facts and provenance created" "success" new now refl refl refl in
        complete-Ends new pages method _ r r

    pub keep_pages-Ends :
        (d : Document) (found : List String × String) (s : Session)
        → At 3 d s.db
        → Ends (keep_pages py pr actor correlation_id d found s)
    unfolding keep_pages advance get_document replace_pages
    keep_pages-Ends d (pages, method) s now =
        let new : Document = record d {
          page_count = length pages;
          extraction_status = "extracted";
          processing_status = DocumentStatus.classifying;
        } in
        classify-Ends new pages method _ (
          transition-Reached document_id actor start (take 3 stages) d
            (replace_pages py d method pages s.db) actor correlation_id
            "Deterministic classification started" "success" new
            (record {
              row = now.row;
              news = now.news;
              events = now.events;
              statuses = now.statuses;
            })
            refl refl refl)

    pub extract-Ends :
        (d : Document) (content : Bytes) (s : Session)
        → At 2 d s.db
        → Ends (extract py pr actor correlation_id d content s)
    unfolding extract advance
    extract-Ends d content s now =
        let new = with_status DocumentStatus.extracting d in
        let r =
          transition-Reached document_id actor start (take 2 stages) d s.db actor correlation_id
            "Text extraction started" "success" new now refl refl refl in
        from_result-Ends (extract_pages py pr.readers pr.ocr content d.detected_mime_type) _ _ 3 new
          (omega arith) r (λ found. keep_pages-Ends new found _ r)

    pub receive-Ends :
        (d : Document) (content : Bytes) (s : Session)
        → At 0 d s.db
        → Ends (receive py pr actor correlation_id d content s)
    unfolding receive advance
    receive-Ends d content s now =
        let d1 = with_status DocumentStatus.validating d in
        let d2 = with_status DocumentStatus.stored d1 in
        let r1 =
          transition-Reached document_id actor start [] d s.db actor correlation_id
            "Integrity metadata verified" "success" d1 now refl refl refl in
        fail_with-Ends (pr.put_bytes d1.storage_key content d1.detected_mime_type) _ _ 1 d1
          (omega arith) r1
          (extract-Ends d2 content _ (
            transition-Reached document_id actor start (take 1 stages) d1 _ actor correlation_id
              "Immutable original stored" "success" d2 r1 refl refl refl))
