-- ===== src/ModelAssistance/Service/Cited.antt =====
-- The citations of a brief, from handles that have passed the validation.
use mathlib.Core.List.{Mem}
use mathlib.Core.Option.{some-injective}
use mathlib.Core.Path.{subst}
use aegisclaims_ai.Prelude.{
  All, List, Option-cases, String, [], false, inl, inr, refl, some, some≢none, sym, true≢false, ℕ,
  ◌∷◌, ◌≡◌,
}
use aegisclaims_ai.ModelAssistance.Service.{citation, cite}
use aegisclaims_ai.ModelAssistance.Validation.{
  Citations, get_item, is_unauthorized, is_wrong_policy,
}
use aegisclaims_ai.ModelAssistance.Validation.Grounded.{Holds, IsOfEdition, get_item-All}
use aegisclaims_ai.Prelude.Python.{Python}
use aegisclaims_ai.Retrieval.Types.{RetrievedEvidence}
use aegisclaims_ai.Store.{Citation}

module _ (py : Python) (claim_id : ℕ) (edition : String) (evidence : List RetrievedEvidence) where
  -- A citation of a retrieved passage whose policy edition is the one that applies, or that has none.
  pub record IsCitedFrom (c : Citation) : Type 0 where
    pub passage : RetrievedEvidence
    pub retrieved : Mem passage evidence
    pub cited : c ≡ citation py claim_id passage
    pub of_edition : IsOfEdition edition passage

  abbrev pub Known : Citations → Type 0
  Known d = All (Holds (λ e. Mem e evidence)) d

  pub of_edition_lem :
      (d : Citations) (h : String) (e : RetrievedEvidence)
      → get_item h d ≡ some e
      → is_wrong_policy d edition h ≡ false
      → IsOfEdition edition e
  of_edition_lem d h e q w = rw (q, is_wrong_policy) at w

  pub cite-IsCitedFrom :
      (d : Citations) (hs : List String) (cs : List Citation)
      → Known d
      → All (λ h. is_wrong_policy d edition h ≡ false) hs
      → cite py claim_id d hs ≡ some cs
      → All IsCitedFrom cs
  unfolding cite
  cite-IsCitedFrom d [] cs known ws q = subst (λ l. All IsCitedFrom l) (some-injective [] cs q) tt
  cite-IsCitedFrom d (h ∷ hs) cs known ws q = elim (Option-cases (get_item h d)) [
    | inl e ↦ absurd (some≢none (sym (rw (e, cite) at q)))
    | inr (item, e) ↦ elim (Option-cases (cite py claim_id d hs)) [
      | inl f ↦ absurd (some≢none (sym (rw (e, cite, f) at q)))
      | inr (rest, f) ↦
          let first : IsCitedFrom (citation py claim_id item) = record {
            passage = item;
            retrieved = get_item-All (λ x. Mem x evidence) h d item known e;
            cited = refl;
            of_edition = of_edition_lem d h item e ws.0;
          } in
          subst (λ l. All IsCitedFrom l)
            (some-injective (citation py claim_id item ∷ rest) cs (rw (e, cite, f) at q))
            (first, cite-IsCitedFrom d hs rest known ws.1 f)
    ]
  ]

pub cite-total :
    (py : Python) (claim_id : ℕ) (d : Citations) (hs : List String)
    → All (λ h. is_unauthorized d h ≡ false) hs
    → (cs : List Citation) × (cite py claim_id d hs ≡ some cs)
unfolding cite
cite-total py claim_id d [] a = ([], refl)
cite-total py claim_id d (h ∷ hs) a = elim (Option-cases (get_item h d)) [
  | inl e ↦ absurd (true≢false (rw e at a.0))
  | inr (item, e) ↦
      let (rest, f) = cite-total py claim_id d hs a.1 in
      (citation py claim_id item ∷ rest, rw (e, cite, f) refl)
]
