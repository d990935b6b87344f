-- ===== src/Retrieval/Indexing/Tables.antt =====
-- Which tables the indexing writes.
use aegisclaims_ai.Prelude.{
  Bool-cases, List, Option, Option-cases, [], ap, filter, find, if◌then◌else◌, inl, inr, is_some,
  length, map, none, refl, some, ℕ, ◌&&◌, ◌==◌, ◌∙◌, ◌∷◌, ◌≡◌,
}
use aegisclaims_ai.Prelude.Exec.{Result, continue, err, ok, or_raise, pure}
use aegisclaims_ai.Retrieval.Chunking.{DeterministicChunk}
use aegisclaims_ai.Retrieval.Indexing.{
  Indexer, Indexing, build_index, cleared, existing_or, fill, filled, index_claim, index_document,
  index_each, index_of, is_built, is_ready_document, new_index, pages_of, pending,
}
use aegisclaims_ai.Retrieval.Types.{RetrievalError, document_not_found}
use aegisclaims_ai.Store.{Db, Document, DocumentIndex, DocumentPage, Session}

-- Nothing but the tables of indexes and chunks has changed, and nothing is committed.
pub record IndexesOnly (after before : Session) : Type 0 where
  pub tables : after.db ≡ record before.db { indexes = after.db.indexes; chunks = after.db.chunks }
  pub saved : after.saved ≡ before.saved

pub IndexesOnly-refl : (s : Session) → IndexesOnly s s
IndexesOnly-refl s = record { tables = refl; saved = refl }

pub IndexesOnly-trans : (c b a : Session) → IndexesOnly c b → IndexesOnly b a → IndexesOnly c a
IndexesOnly-trans c b a h k = record {
  tables =
      h.tables
      ∙ ap (λ (d : Db). record d { indexes = c.db.indexes; chunks = c.db.chunks }) k.tables;
  saved = h.saved ∙ k.saved;
}

-- What follows a call changes indexes only, if the call does and each continuation does.
pub continue-IndexesOnly :
    {A B : Type 0} (x : Result RetrievalError A × Session) (f : A → Indexing B) (s : Session)
    → IndexesOnly x.1 s
    → ((a : A) (t : Session) → IndexesOnly (f a t).1 t)
    → IndexesOnly (continue x.0 f x.1).1 s
continue-IndexesOnly (ok a, t) f s h k = IndexesOnly-trans (f a t).1 t s (k a t) h
continue-IndexesOnly (err e, t) f s h k = h

pub or_raise-IndexesOnly :
    {A : Type 0} (o : Option A) (e : RetrievalError) (s : Session)
    → IndexesOnly (or_raise o e s).1 s
or_raise-IndexesOnly none e s = IndexesOnly-refl s
or_raise-IndexesOnly (some a) e s = IndexesOnly-refl s

module _ (ix : Indexer) where
  pub fill-IndexesOnly :
      (d : Document) (index : DocumentIndex) (chunks : List (DocumentPage × DeterministicChunk))
      (s : Session)
      → IndexesOnly (fill ix d index chunks s).1 s
  unfolding fill filled
  fill-IndexesOnly d index chunks s =
      elim (Option-cases (
        ix.embed_error
          (map (λ (c : DocumentPage × DeterministicChunk). ix.of_codes c.1.text) chunks))) [
            | inl e ↦ rw (e, fill) (record { tables = refl; saved = refl })
            | inr (x, e) ↦ rw (e, fill) (record { tables = refl; saved = refl })
          ]

  pub build_index-IndexesOnly :
      (d : Document) (existing : Option DocumentIndex) (s : Session)
      → IndexesOnly (build_index ix d existing s).1 s
  unfolding build_index cleared
  build_index-IndexesOnly d existing s =
      let index = existing_or existing (new_index ix d) in
      let t : Session = record s { db = cleared (is_some existing) index s.db } in
      IndexesOnly-trans (build_index ix d existing s).1 t s
        (fill-IndexesOnly d index (pending ix d (pages_of t.db d)) t)
        (record { tables = refl; saved = refl })

  pub index_document-IndexesOnly : (id : ℕ) (s : Session) → IndexesOnly (index_document ix id s).1 s
  unfolding index_document
  index_document-IndexesOnly id s =
      let found = find (λ (d : Document). d.id == id) s.db.documents in
      continue-IndexesOnly (or_raise found document_not_found s)
        (λ d t.
          (if is_built (find (index_of d) t.db.indexes)
              then pure tt
              else build_index ix d (find (index_of d) t.db.indexes))
            t)
        s (or_raise-IndexesOnly found document_not_found s)
        (λ d t. elim (Bool-cases (is_built (find (index_of d) t.db.indexes))) [
          | inl e ↦ rw e (IndexesOnly-refl t)
          | inr e ↦ rw e (build_index-IndexesOnly d (find (index_of d) t.db.indexes) t)
        ])

  pub index_each-IndexesOnly :
      (ds : List Document) (s : Session) → IndexesOnly (index_each ix ds s).1 s
  unfolding index_each
  index_each-IndexesOnly [] s = IndexesOnly-refl s
  index_each-IndexesOnly (d ∷ ds) s =
      continue-IndexesOnly (index_document ix d.id s) (λ _. index_each ix ds) s
        (index_document-IndexesOnly d.id s) (λ _ t. index_each-IndexesOnly ds t)

  pub index_claim-IndexesOnly :
      (claim tenant : ℕ) (s : Session) → IndexesOnly (index_claim ix claim tenant s).1 s
  unfolding index_claim
  index_claim-IndexesOnly claim tenant s =
      let ds =
        filter
          (λ (d : Document). d.claim_id == claim && (d.tenant_id == tenant && is_ready_document d))
          s.db.documents in
      continue-IndexesOnly (index_each ix ds s) (λ _. pure (length ds)) s
        (index_each-IndexesOnly ds s) (λ _ t. IndexesOnly-refl t)
