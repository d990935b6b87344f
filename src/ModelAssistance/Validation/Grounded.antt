-- ===== src/ModelAssistance/Validation/Grounded.antt =====
-- What a candidate without failures cites and says, and what the model is shown.
use mathlib.Core.List.{Mem, nil≢cons, mem-cons_self, mem-cons_of_mem}
use mathlib.Core.Path.{subst}
use mathlib.Core.Option.{some-injective}
use aegisclaims_ai.Prelude.{
  All, All-map, Bool, Bool-cases, List, String, [], any, any_contains, false, inl, inr, refl, some,
  some≢none, str_eq, sym, true, true≢false, ◌++◌, ◌∷◌, ◌≡◌,
}
use aegisclaims_ai.ModelAssistance.Types.{BriefCandidate}
use aegisclaims_ai.ModelAssistance.Validation.{
  Citations, add_citations, get_item, is_other_edition, is_unauthorized, is_wrong_policy,
  prohibited_phrases, searched_text, set_item, validate, when,
}
use aegisclaims_ai.Prelude.Python.{Python}
use aegisclaims_ai.Retrieval.Types.{RetrievedEvidence, stable_citation_id}

-- A retrieved passage whose policy edition is the one that applies, or that has none.
abbrev pub IsOfEdition : String → RetrievedEvidence → Type 0
IsOfEdition edition e = is_other_edition edition e.chunk.policy_edition ≡ false

pub All-self {ℓ} : {A : Type ℓ} (xs : List A) → All (λ x. Mem x xs) xs
All-self [] = tt
All-self (x ∷ xs) = (
  mem-cons_self,
  All-map (λ y. Mem y xs) (λ y. Mem y (x ∷ xs)) xs (λ y h. mem-cons_of_mem x h) (All-self xs),
)

module _ (P : RetrievedEvidence → Type 0) where
  abbrev pub Holds : String × RetrievedEvidence → Type 0
  Holds c = P c.1

  pub set_item-All :
      (key : String) (e : RetrievedEvidence) (d : Citations)
      → P e
      → All Holds d
      → All Holds (set_item key e d)
  unfolding set_item
  set_item-All key e [] h hs = (h, tt)
  set_item-All key e ((k, x) ∷ d) h hs = elim (Bool-cases (str_eq k key)) [
    | inl q ↦ rw q (h, hs.1)
    | inr q ↦ rw q (hs.0, set_item-All key e d h hs.1)
  ]

  pub add_citations-All :
      (py : Python) (es : List RetrievedEvidence) (d : Citations)
      → All P es
      → All Holds d
      → All Holds (add_citations py es d)
  unfolding add_citations
  add_citations-All py [] d h hs = hs
  add_citations-All py (e ∷ es) d h hs =
      let key = stable_citation_id py e.chunk.chunk_identifier in
      add_citations-All py es (set_item key e d) h.1 (set_item-All key e d h.0 hs)

  pub get_item-All :
      (key : String) (d : Citations) (e : RetrievedEvidence)
      → All Holds d
      → get_item key d ≡ some e
      → P e
  unfolding get_item
  get_item-All key [] e hs q = absurd (some≢none (sym q))
  get_item-All key ((k, x) ∷ d) e hs q = elim (Bool-cases (str_eq k key)) [
    | inl same ↦ subst P (some-injective x e (rw same at q)) hs.0
    | inr other ↦ get_item-All key d e hs.1 (rw other at q)
  ]

pub any-false {ℓ} :
    {A : Type ℓ} (p : A → Bool) (xs : List A) → any p xs ≡ false → All (λ x. p x ≡ false) xs
any-false p [] h = tt
any-false p (x ∷ xs) h = elim (Bool-cases (p x)) [
  | inl e ↦ absurd (true≢false (rw e at h))
  | inr e ↦ (e, any-false p xs (rw e at h))
]

pub when-nil :
    (b : Bool) (name : String) (xs : List String) → when b name ++ xs ≡ [] → (b ≡ false) × (xs ≡ [])
when-nil true name xs h = absurd (nil≢cons (sym h))
when-nil false name xs h = (refl, h)

-- A candidate without failures: each handle is one of the citations and not of another edition, and
-- the text that is searched has no prohibited phrase.
pub record IsValid (py : Python) (c : BriefCandidate) (d : Citations) (edition : String)
    : Type 0 where
  pub authorized : All (λ h. is_unauthorized d h ≡ false) c.citation_handles
  pub applicable : All (λ h. is_wrong_policy d edition h ≡ false) c.citation_handles
  pub permitted : any_contains prohibited_phrases (searched_text py c) ≡ false

pub validate-IsValid :
    (py : Python) (c : BriefCandidate) (d : Citations) (edition : String)
    → validate py c d edition ≡ []
    → IsValid py c d edition
unfolding validate
validate-IsValid py c d edition h =
    let wrong = when (any (is_wrong_policy d edition) c.citation_handles) "wrong_policy_citation" in
    let said = any_contains prohibited_phrases (searched_text py c) in
    let first =
      when-nil (any (is_unauthorized d) c.citation_handles) "unauthorized_citation"
        (wrong ++ when said "prohibited_consequential_output") h in
    let second =
      when-nil (any (is_wrong_policy d edition) c.citation_handles) "wrong_policy_citation"
        (when said "prohibited_consequential_output") first.1 in
    record {
      authorized = any-false (is_unauthorized d) c.citation_handles first.0;
      applicable = any-false (is_wrong_policy d edition) c.citation_handles second.0;
      permitted = unsaid said second.1;
    }
  where
    unsaid : (b : Bool) → when b "prohibited_consequential_output" ≡ [] → b ≡ false
    unsaid true q = absurd (nil≢cons (sym q))
    unsaid false q = refl
