-- ===== src/Retrieval/Search/Found.antt =====
-- What a search finds, and which tables a retrieval writes.
use mathlib.Core.List.{Mem}
use aegisclaims_ai.Prelude.{
  &&-true, ==_iff, All, All-take, Bool, Bool-cases, List, String, [], any, ap, arith, false, filter,
  inl, inr, length, length-take, map, refl, str_eq, suc, sym, take, true, true≢false, ℕ, ◌&&◌, ◌+◌,
  ◌==◌, ◌∷◌, ◌≡◌, ◌≤◌,
}
use aegisclaims_ai.ModelAssistance.Validation.Grounded.{All-self}
use aegisclaims_ai.Prelude.Python.{Python}
use aegisclaims_ai.Retrieval.Indexing.{is_ready_index}
use aegisclaims_ai.Retrieval.Search.{
  FusedChunk, ScoredChunk, Scoring, applicability_of, by_lexical, by_vector, fused, fused_chunk,
  has_other_edition, is_candidate, is_scored, is_skipped, ranked, ranks_before, scored,
  scored_chunk, search,
}
use aegisclaims_ai.Retrieval.Types.{RetrievedEvidence}
use aegisclaims_ai.Store.{Db, DocumentIndex, RetrievalChunk}
use aegisclaims_ai.Store.Claims.Isolation.{All-sort_by}

-- A passage that a search may return.
pub record IsFound (db : Db) (tenant claim : ℕ) (edition : String) (e : RetrievedEvidence)
    : Type 0 where
  pub stored : Mem e.chunk db.chunks
  pub of_tenant : e.chunk.tenant_id ≡ tenant
  pub of_claim : e.chunk.claim_id ≡ claim
  pub indexed :
      any (λ (i : DocumentIndex). i.id == e.chunk.index_id && is_ready_index i) db.indexes ≡ true
  pub policy :
      str_eq e.chunk.document_type "policy_document" ≡ true
      → has_other_edition edition e.chunk.policy_edition ≡ false
  pub labelled : e.applicability_status ≡ applicability_of edition e.chunk

pub Numbered : ℕ → List RetrievedEvidence → Type 0
Numbered n [] = Unit
Numbered n (e ∷ es) = (e.rank ≡ n) × Numbered (n + 1) es

-- What holds of a list's elements holds of those that a query keeps, with the query's test.
pub filter-All {ℓ} :
    {A : Type 0} (p : A → Bool) (P : A → Type ℓ) (xs : List A)
    → All P xs
    → All (λ x. P x × (p x ≡ true)) (filter p xs)
filter-All p P [] h = tt
filter-All p P (x ∷ xs) h = elim (Bool-cases (p x)) [
  | inl e ↦ rw e ((h.0, e), filter-All p P xs h.1)
  | inr e ↦ rw e (filter-All p P xs h.1)
]

pub map-All {ℓ} :
    {A B : Type 0} (f : A → B) (P : A → Type ℓ) (Q : B → Type ℓ) (xs : List A)
    → ((x : A) → P x → Q (f x))
    → All P xs
    → All Q (map f xs)
map-All f P Q [] g h = tt
map-All f P Q (x ∷ xs) g h = (g x h.0, map-All f P Q xs g h.1)

module _ {F : Type 0} (py : Python) (scoring : Scoring F) where
  pub ranked-Numbered : (n : ℕ) (xs : List (FusedChunk F)) → Numbered n (ranked py scoring n xs)
  unfolding ranked Numbered
  ranked-Numbered n [] = tt
  ranked-Numbered n (x ∷ xs) = (refl, ranked-Numbered (n + 1) xs)

  pub length-ranked :
      (n : ℕ) (xs : List (FusedChunk F)) → length (ranked py scoring n xs) ≡ length xs
  unfolding ranked
  length-ranked n [] = refl
  length-ranked n (x ∷ xs) = ap suc (length-ranked (n + 1) xs)

  module _ (db : Db) (tenant claim : ℕ) (edition question : String) where
    -- What a scored chunk is, whatever its scores.
    abbrev pub IsScored : RetrievalChunk → String → Type 0
    IsScored c label =
        Mem c db.chunks
        × (is_candidate db tenant claim c ≡ true)
        × (is_skipped edition (py.lower question) (py.lower c.normalized_text) c ≡ false)
        × (label ≡ applicability_of edition c)

    pub ranked-IsFound :
        (n : ℕ) (xs : List (FusedChunk F))
        → All (λ (x : FusedChunk F). IsScored x.chunk x.applicability) xs
        → All (IsFound db tenant claim edition) (ranked py scoring n xs)
    unfolding ranked is_candidate is_skipped
    ranked-IsFound n [] h = tt
    ranked-IsFound n (x ∷ xs) ((m, c, s, l), h) = (
      record {
        stored = m;
        of_tenant = (==_iff x.chunk.tenant_id tenant).0 (&&-true _ _ c).0;
        of_claim = (==_iff x.chunk.claim_id claim).0 (&&-true _ _ (&&-true _ _ c).1).0;
        indexed = (&&-true _ _ (&&-true _ _ (&&-true _ _ c).1).1).0;
        policy = λ p. ground (arith, s, p);
        labelled = l;
      },
      ranked-IsFound (n + 1) xs h,
    )

    pub scored-IsScored :
        All
          (λ (x : ScoredChunk F). IsScored x.chunk x.applicability)
          (scored py scoring edition question (filter (is_candidate db tenant claim) db.chunks))
    unfolding scored scored_chunk
    scored-IsScored =
        let candidates = filter (is_candidate db tenant claim) db.chunks in
        let known =
          filter-All (is_candidate db tenant claim) (λ c. Mem c db.chunks) db.chunks
            (All-self db.chunks) in
        map-All (scored_chunk py scoring edition question)
          (λ c.
            (Mem c db.chunks × (is_candidate db tenant claim c ≡ true))
            × (is_scored py scoring edition question c ≡ true))
          (λ (x : ScoredChunk F). IsScored x.chunk x.applicability)
          (filter (is_scored py scoring edition question) candidates)
          (λ c h. (h.0.0, h.0.1, unskipped c h.1, refl))
          (filter-All (is_scored py scoring edition question)
            (λ c. Mem c db.chunks × (is_candidate db tenant claim c ≡ true)) candidates known)
      where
        unskipped :
            (c : RetrievalChunk)
            → is_scored py scoring edition question c ≡ true
            → is_skipped edition (py.lower question) (py.lower c.normalized_text) c ≡ false
        unskipped c h =
            let skip = is_skipped edition (py.lower question) (py.lower c.normalized_text) c in
            elim (Bool-cases skip) [ inl e ↦ absurd (true≢false (sym (rw e at h))) | inr e ↦ e ]

    pub fused-IsScored :
        All
          (λ (x : FusedChunk F). IsScored x.chunk x.applicability)
          (fused py scoring
            (scored py scoring edition question (filter (is_candidate db tenant claim) db.chunks)))
    unfolding fused fused_chunk
    fused-IsScored =
        let xs =
          scored py scoring edition question (filter (is_candidate db tenant claim) db.chunks) in
        let f = fused_chunk py scoring (by_lexical py scoring xs) (by_vector py scoring xs) in
        All-sort_by (λ (x : FusedChunk F). IsScored x.chunk x.applicability)
          (λ (a : FusedChunk F) (b : FusedChunk F).
            ranks_before py scoring a.score a.chunk.chunk_identifier b.score
              b.chunk.chunk_identifier)
          (map f xs)
          (map-All f (λ (x : ScoredChunk F). IsScored x.chunk x.applicability)
            (λ (x : FusedChunk F). IsScored x.chunk x.applicability) xs (λ x h. h) scored-IsScored)

    -- Each passage of a search is a stored chunk of the tenant and the claim, in an index that is
    -- ready; a policy document of another edition is not among them, and the label says whether the
    -- edition is another one. The ranks are 1, 2, 3, … and there are at most `limit`.
    pub search-IsFound :
        (limit : ℕ)
        → All
            (IsFound db tenant claim edition)
            (search py scoring db tenant claim question edition limit).0
          × Numbered 1 (search py scoring db tenant claim question edition limit).0
          × (length (search py scoring db tenant claim question edition limit).0 ≤ limit)
    unfolding search
    search-IsFound limit =
        let xs =
          fused py scoring (
            scored py scoring edition question (filter (is_candidate db tenant claim) db.chunks)) in
        (
          ranked-IsFound 1 (take limit xs) (
              All-take (λ (x : FusedChunk F). IsScored x.chunk x.applicability) limit xs
                fused-IsScored),
          ranked-Numbered 1 (take limit xs),
          omega (arith, length-ranked 1 (take limit xs), length-take limit xs),
        )
