-- ===== src/Documents/Processing/Outcome.antt =====
-- How the processing of a document ends.
use mathlib.Core.List.{append-nil}
use aegisclaims_ai.Prelude.{
  List, String, [], ap, false, inl, inr, map, refl, some, str_take, sym, take, ℕ, ◌++◌, ◌<◌, ◌∙◌,
  ◌∷◌, ◌≡◌, ◌⊎◌,
}
use aegisclaims_ai.Documents.Extraction.{Failure}
use aegisclaims_ai.Documents.Ingestion.{
  IngestionError, Processor, advance, receive, transition, with_status,
}
use aegisclaims_ai.Documents.Processing.{
  conclude_processing, failed_document, is_ready, process, process_document, record_failure,
}
use aegisclaims_ai.Documents.Processing.History.{get_document-id, stages, transition-Reached}
use aegisclaims_ai.Documents.Processing.Stages.{At, Ends, receive-Ends}
use aegisclaims_ai.Documents.Upload.{Bytes}
use aegisclaims_ai.Domain.{Actor, DocumentStatus}
use aegisclaims_ai.Prelude.Exec.{Result, err, ok}
use aegisclaims_ai.Prelude.Python.{Python}
use aegisclaims_ai.Store.{Document, ProcessingEvent, Session}
use aegisclaims_ai.Store.Claims.{get_document}

module _ (document_id : ℕ) (actor : Actor) where
  -- All is committed, and the actor sees the document that is returned. Its new events pass through
  -- all the stages if it is ready; otherwise it has failed, and they pass through the first `n`
  -- stages and end in the failure.
  pub record IsProcessed (before : Session) (d : Document) (after : Session) : Type 0 where
    pub committed : after.db ≡ after.saved
    pub row : get_document after.saved document_id actor ≡ some d
    pub news : List ProcessingEvent
    pub events : after.saved.processing_events ≡ before.db.processing_events ++ news
    pub ended :
        ((d.processing_status ≡ DocumentStatus.ready)
          × (map (λ (e : ProcessingEvent). e.status) news ≡ stages))
        ⊎ ((n : ℕ) × (n < 6)
            × (d.processing_status ≡ DocumentStatus.failed)
            × (map (λ (e : ProcessingEvent). e.status) news
                ≡ take n stages ++ DocumentStatus.failed ∷ []))

  module _ (py : Python) (pr : Processor) (correlation_id : String) (before : Session) where
    abbrev pub Concluded : Result IngestionError Document × Session → Type 0
    Concluded x = (d : Document) × (t : Session) × (x ≡ (ok d, t)) × IsProcessed before d t

    pub record_failure-Concluded :
        (e : Failure) (s : Session) (n : ℕ) (d : Document)
        → n < 6
        → At document_id actor before.db.processing_events n d s.saved
        → Concluded (record_failure py pr actor correlation_id document_id e s)
    unfolding record_failure advance
    record_failure-Concluded e s n d lt r =
        let new =
          with_status DocumentStatus.failed (failed_document py pr actor correlation_id e d) in
        let db = transition actor correlation_id (str_take 500 e.text) "failure" new s.saved in
        let next =
          transition-Reached document_id actor before.db.processing_events (take n stages) d s.saved
            actor correlation_id (str_take 500 e.text) "failure" new r refl refl refl in
        (
          new,
          record { db = db; saved = db },
          rw (r.row, record_failure) refl,
          record {
            committed = refl;
            row = next.row;
            news = next.news;
            events = next.events;
            ended = inr (n, lt, refl, next.statuses);
          },
        )

    pub conclude-Concluded :
        (x : Result Failure Document × Session)
        → Ends document_id actor before.db.processing_events x
        → Concluded (conclude_processing py pr actor correlation_id document_id x)
    conclude-Concluded (ok d, t) (c, status, r) = (
      d,
      t,
      refl,
      record {
        committed = c;
        row = r.row;
        news = r.news;
        events = r.events;
        ended = inl (status, r.statuses);
      },
    )
    conclude-Concluded (err e, t) (n, d, lt, r) = record_failure-Concluded e t n d lt r

  -- The processing of an upload that the actor sees, and that is not ready, always returns the
  -- document, ready or failed, whatever the storage, the extraction and the indexing do; all is
  -- committed, and its new events pass through the stages in their order, as far as it came, the
  -- last of them the failure if it failed.
  pub process-IsProcessed :
      (py : Python) (pr : Processor) (correlation_id : String) (content : Bytes) (s : Session)
      (d : Document)
      → get_document s.db document_id actor ≡ some d
      → is_ready d.processing_status ≡ false
      → (new : Document) × (t : Session) × (process py pr actor correlation_id document_id
            (some content)
            s
          ≡ (ok new, t))
        × IsProcessed s new t
  unfolding process process_document
  process-IsProcessed py pr correlation_id content s d h k =
      let same = get_document-id document_id actor s.db d h in
      let first : At document_id actor s.db.processing_events 0 d s.db = record {
        row = h;
        news = [];
        events = sym (append-nil s.db.processing_events);
        statuses = refl;
      } in
      let ends =
        receive-Ends document_id actor s.db.processing_events py pr correlation_id d content s
          first in
      let (new, t, q, done) =
        conclude-Concluded py pr correlation_id s (receive py pr actor correlation_id d content s)
          ends in
      let step : process py pr actor correlation_id document_id (some content) s
          ≡ process_document py pr actor correlation_id d (some content) s =
        rw (h, process, k) refl in
      (
        new,
        t,
        step
            ∙ (ap
                  (λ (i : ℕ).
                    conclude_processing py pr actor correlation_id i
                      (receive py pr actor correlation_id d content s))
                  same
                ∙ q),
        done,
      )
