-- ===== src/Documents/Conflicts/Soundness.antt =====
-- Which conflicts a rebuild detects, and what it leaves alone.
use mathlib.Core.Path.{subst}
use aegisclaims_ai.Prelude.{
  All, All-append, Bool, Bool-cases, List, [], ap, arith, inl, inr, refl, sym, true, ℕ, ◌&&◌, ◌++◌,
  ◌==◌, ◌↔◌, ◌∷◌, ◌≡◌, ◌⊎◌,
}
use aegisclaims_ai.Documents.Conflicts.{conflicts_with, disagree, pairwise}
use aegisclaims_ai.Store.{DocumentFact, FactConflict}

abbrev pub Occurs : {A : Type 0} → A → List A → Type 0
Occurs x [] = ⊥
Occurs x (y ∷ ys) = (x ≡ y) ⊎ Occurs x ys

-- `x` stands before `y` in the list.
abbrev pub Precedes : {A : Type 0} → A → A → List A → Type 0
Precedes x y [] = ⊥
Precedes x y (z ∷ zs) = ((x ≡ z) × Occurs y zs) ⊎ Precedes x y zs

append-Occurs :
    (c : FactConflict) (xs ys : List FactConflict) → Occurs c (xs ++ ys) → Occurs c xs ⊎ Occurs c ys
append-Occurs c [] ys h = inr h
append-Occurs c (x ∷ xs) ys (inl e) = inl (inl e)
append-Occurs c (x ∷ xs) ys (inr h) = elim (append-Occurs c xs ys h) [
  | inl o ↦ inl (inr o)
  | inr o ↦ inr o
]

Occurs-left : (c : FactConflict) (xs ys : List FactConflict) → Occurs c xs → Occurs c (xs ++ ys)
Occurs-left c [] ys h = absurd h
Occurs-left c (x ∷ xs) ys (inl e) = inl e
Occurs-left c (x ∷ xs) ys (inr h) = inr (Occurs-left c xs ys h)

Occurs-right : (c : FactConflict) (xs ys : List FactConflict) → Occurs c ys → Occurs c (xs ++ ys)
Occurs-right c [] ys h = h
Occurs-right c (x ∷ xs) ys h = inr (Occurs-right c xs ys h)

module _ (tenant claim : ℕ) where
  -- The conflict that is recorded for two facts.
  abbrev pub conflict_of : DocumentFact → DocumentFact → FactConflict
  conflict_of left right = record {
    tenant_id = tenant;
    claim_id = claim;
    fact_type = left.fact_type;
    left_fact = left;
    right_fact = right;
  }

  conflicts_with-from :
      (c : FactConflict) (left : DocumentFact) (facts : List DocumentFact)
      → Occurs c (conflicts_with tenant claim left facts)
      → (right : DocumentFact) × (Occurs right facts
          × ((disagree left right ≡ true) × (c ≡ conflict_of left right)))
  unfolding conflicts_with
  conflicts_with-from c left [] h = absurd h
  conflicts_with-from c left (right ∷ facts) h = elim (Bool-cases (disagree left right)) [
    | inr agree ↦
        let (r, (o, rest)) = conflicts_with-from c left facts (rw agree at h) in (r, (inr o, rest))
    | inl e ↦
        let found : (c ≡ conflict_of left right)
            ⊎ Occurs c (conflicts_with tenant claim left facts) =
          rw e at h in
        elim found [
          | inl same ↦ (right, (inl refl, (e, same)))
          | inr later ↦
              let (r, (o, rest)) = conflicts_with-from c left facts later in (r, (inr o, rest))
        ]
  ]

  conflicts_with-to :
      (left right : DocumentFact) (facts : List DocumentFact)
      → Occurs right facts
      → disagree left right ≡ true
      → Occurs (conflict_of left right) (conflicts_with tenant claim left facts)
  unfolding conflicts_with
  conflicts_with-to left right [] o e = absurd o
  conflicts_with-to left right (x ∷ facts) (inl same) e =
      let first : disagree left x ≡ true =
        subst (λ (y : DocumentFact). disagree left y ≡ true) same e in
      rw first (inl (ap (conflict_of left) same))
  conflicts_with-to left right (x ∷ facts) (inr o) e = elim (Bool-cases (disagree left x)) [
    | inl f ↦ rw f (inr (conflicts_with-to left right facts o e))
    | inr f ↦ rw f (conflicts_with-to left right facts o e)
  ]

  pairwise-from :
      (c : FactConflict) (facts : List DocumentFact)
      → Occurs c (pairwise tenant claim facts)
      → (left : DocumentFact) × ((right : DocumentFact) × (Precedes left right facts
            × ((disagree left right ≡ true) × (c ≡ conflict_of left right))))
  unfolding pairwise
  pairwise-from c [] h = absurd h
  pairwise-from c (x ∷ facts) h =
      elim (append-Occurs c (conflicts_with tenant claim x facts) (pairwise tenant claim facts) h) [
        | inl o ↦
            let (r, (o', rest)) = conflicts_with-from c x facts o in
            (x, (r, (inl (refl, o'), rest)))
        | inr o ↦ let (l, (r, (o', rest))) = pairwise-from c facts o in (l, (r, (inr o', rest)))
      ]

  pairwise-to :
      (left right : DocumentFact) (facts : List DocumentFact)
      → Precedes left right facts
      → disagree left right ≡ true
      → Occurs (conflict_of left right) (pairwise tenant claim facts)
  unfolding pairwise
  pairwise-to left right [] o e = absurd o
  pairwise-to left right (x ∷ facts) (inl (same, o)) e =
      Occurs-left (conflict_of left right) (conflicts_with tenant claim x facts)
        (pairwise tenant claim facts)
        (subst
          (λ (y : DocumentFact).
            Occurs (conflict_of left right) (conflicts_with tenant claim y facts))
          same (conflicts_with-to left right facts o e))
  pairwise-to left right (x ∷ facts) (inr o) e =
      Occurs-right (conflict_of left right) (conflicts_with tenant claim x facts)
        (pairwise tenant claim facts) (pairwise-to left right facts o e)

  -- A conflict is detected exactly when it is that of two facts, one before the other in the list,
  -- of the same type and of different values.
  pub pairwise_iff :
      (c : FactConflict) (facts : List DocumentFact)
      → Occurs c (pairwise tenant claim facts) ↔ (
          (left : DocumentFact) × ((right : DocumentFact) × (Precedes left right facts
              × ((disagree left right ≡ true) × (c ≡ conflict_of left right)))))
  pairwise_iff c facts = (
    pairwise-from c facts,
    λ (l, (r, (o, (e, same)))).
        subst (λ (x : FactConflict). Occurs x (pairwise tenant claim facts)) (sym same)
          (pairwise-to l r facts o e),
  )

abbrev pub of_claim : ℕ → ℕ → FactConflict → Bool
of_claim claim tenant c = c.claim_id == claim && c.tenant_id == tenant

conflicts_with-own :
    (tenant claim : ℕ) (left : DocumentFact) (facts : List DocumentFact)
    → All (λ c. of_claim claim tenant c ≡ true) (conflicts_with tenant claim left facts)
unfolding conflicts_with
conflicts_with-own tenant claim left [] = tt
conflicts_with-own tenant claim left (x ∷ facts) = elim (Bool-cases (disagree left x)) [
  | inl e ↦ rw e (ground arith, conflicts_with-own tenant claim left facts)
  | inr e ↦ rw e (conflicts_with-own tenant claim left facts)
]

pub pairwise-own :
    (tenant claim : ℕ) (facts : List DocumentFact)
    → All (λ c. of_claim claim tenant c ≡ true) (pairwise tenant claim facts)
unfolding pairwise
pairwise-own tenant claim [] = tt
pairwise-own tenant claim (x ∷ facts) =
    All-append (λ c. of_claim claim tenant c ≡ true) (conflicts_with tenant claim x facts)
      (pairwise tenant claim facts) (conflicts_with-own tenant claim x facts)
      (pairwise-own tenant claim facts)
