-- ===== src/Documents/Processing/History.antt =====
-- The processing events of a document, and how a transition extends them.
use mathlib.Core.List.{append_assoc}
use aegisclaims_ai.Prelude.{
  &&-true, ==_iff, Bool, Bool-cases, List, String, [], ap, find, find-holds, inl, inr, map, refl,
  some, some≢none, sym, true, true≢false, update_where, ℕ, ◌&&◌, ◌++◌, ◌==◌, ◌∙◌, ◌∷◌, ◌≡◌,
}
use aegisclaims_ai.Documents.Ingestion.{audited, event_row, transition}
use aegisclaims_ai.Domain.{Actor, DocumentStatus}
use aegisclaims_ai.Store.{Db, Document, ProcessingEvent}
use aegisclaims_ai.Store.Claims.{document_visible, get_document}
use aegisclaims_ai.Workflow.Service.Operations.{start}

-- The order in which `receive` passes through the statuses.
abbrev pub stages : List DocumentStatus
stages =
    DocumentStatus.validating ∷ DocumentStatus.stored ∷ DocumentStatus.extracting
    ∷ DocumentStatus.classifying ∷ DocumentStatus.normalizing ∷ DocumentStatus.ready ∷ []

pub find-overwritten {ℓ} :
    {A : Type ℓ} (p q : A → Bool) (xs : List A) (x new : A)
    → ((y : A) → p y ≡ true → q y ≡ true)
    → p new ≡ true
    → find p xs ≡ some x
    → find p (update_where q (λ _. new) xs) ≡ some new
find-overwritten p q [] x new imp h f = absurd (some≢none (sym f))
find-overwritten p q (y ∷ ys) x new imp h f = elim (Bool-cases (q y)) [
  | inl e ↦ rw (e, h) refl
  | inr e ↦ elim (Bool-cases (p y)) [
    | inl e' ↦ absurd (true≢false (sym (imp y e') ∙ e))
    | inr e' ↦ rw (e, e') (find-overwritten p q ys x new imp h (rw e' at f))
  ]
]

pub map-append_last {ℓ κ} :
    {A : Type ℓ} {B : Type κ} (f : A → B) (xs : List A) (x : A)
    → map f (xs ++ x ∷ []) ≡ map f xs ++ f x ∷ []
map-append_last f [] x = refl
map-append_last f (y ∷ ys) x = ap (λ t. f y ∷ t) (map-append_last f ys x)

-- The document that the actor sees under its identifier, and the statuses of the events that were
-- added since `start`.
pub record Reached (document_id : ℕ) (actor : Actor) (start : List ProcessingEvent)
    (path : List DocumentStatus) (d : Document) (db : Db) : Type 0 where
  pub row : get_document db document_id actor ≡ some d
  pub news : List ProcessingEvent
  pub events : db.processing_events ≡ start ++ news
  pub statuses : map (λ (e : ProcessingEvent). e.status) news ≡ path

module _ (document_id : ℕ) (actor : Actor) where
  abbrev pub is_seen : Db → Document → Bool
  is_seen db d = d.id == document_id && document_visible db actor d

  pub get_document-id :
      (db : Db) (d : Document) → get_document db document_id actor ≡ some d → d.id ≡ document_id
  unfolding get_document
  get_document-id db d h =
      (==_iff d.id document_id).0
        (&&-true (d.id == document_id) (document_visible db actor d)
          (find-holds (is_seen db) db.documents d h)).0

  -- A transition writes the row and adds one event.
  pub transition-Reached :
      (start : List ProcessingEvent) (path : List DocumentStatus) (d : Document) (db : Db)
      (writer : Actor) (correlation_id detail outcome : String) (new : Document)
      → Reached document_id actor start path d db
      → new.id ≡ d.id
      → new.tenant_id ≡ d.tenant_id
      → new.claim_id ≡ d.claim_id
      → Reached document_id actor start
          (path ++ new.processing_status ∷ [])
          new
          (transition writer correlation_id detail outcome new db)
  unfolding transition audited get_document
  transition-Reached start path d db writer correlation_id detail outcome new r i t c =
      let row = event_row new new.processing_status detail correlation_id in
      let same = i ∙ get_document-id db d r.row in
      let seen : is_seen db new ≡ true =
        rw (i, t, c) (find-holds (is_seen db) db.documents d r.row) in
      record {
        row =
            find-overwritten (is_seen db) (λ (x : Document). x.id == new.id) db.documents d new
              (λ y h. rw same (&&-true (y.id == document_id) (document_visible db actor y) h).0)
              seen r.row;
        news = r.news ++ row ∷ [];
        events =
            ap (λ (l : List ProcessingEvent). l ++ row ∷ []) r.events
            ∙ append_assoc start r.news (row ∷ []);
        statuses =
            map-append_last (λ (e : ProcessingEvent). e.status) r.news row
            ∙ ap (λ (l : List DocumentStatus). l ++ new.processing_status ∷ []) r.statuses;
      }
