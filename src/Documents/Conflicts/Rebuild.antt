-- ===== src/Documents/Conflicts/Rebuild.antt =====
-- What a rebuild replaces in the table of conflicts.
use aegisclaims_ai.Prelude.{
  All, All-map, Bool, Bool-cases, List, [], ap, arith, false, filter, inl, inr, not, refl, sym,
  true, true≢false, ℕ, ◌&&◌, ◌++◌, ◌==◌, ◌∙◌, ◌∷◌, ◌≡◌,
}
use aegisclaims_ai.Documents.Conflicts.{comparable_facts, conflicts, pairwise, rebuild_conflicts}
use aegisclaims_ai.Documents.Conflicts.Soundness.{of_claim, pairwise-own}
use aegisclaims_ai.Store.{Db, FactConflict}

module _ {A : Type 0} (p : A → Bool) where
  filter-append : (xs ys : List A) → filter p (xs ++ ys) ≡ filter p xs ++ filter p ys
  filter-append [] ys = refl
  filter-append (x ∷ xs) ys = elim (Bool-cases (p x)) [
    | inl e ↦ rw e (ap (λ zs. x ∷ zs) (filter-append xs ys))
    | inr e ↦ rw e (filter-append xs ys)
  ]

  filter-All : (xs : List A) → All (λ x. p x ≡ true) xs → filter p xs ≡ xs
  filter-All [] h = refl
  filter-All (x ∷ xs) h = rw h.0 (ap (λ zs. x ∷ zs) (filter-All xs h.1))

  filter-none : (xs : List A) → All (λ x. p x ≡ false) xs → filter p xs ≡ []
  filter-none [] h = refl
  filter-none (x ∷ xs) h = rw h.0 (filter-none xs h.1)

  -- Rows that a stronger filter keeps are kept after a weaker one.
  filter-filter :
      (q : A → Bool) (xs : List A)
      → ((x : A) → p x ≡ true → q x ≡ true)
      → filter p (filter q xs) ≡ filter p xs
  filter-filter q [] h = refl
  filter-filter q (x ∷ xs) h = elim (Bool-cases (q x)) [
    | inl e ↦ elim (Bool-cases (p x)) [
      | inl f ↦ rw (e, f) (ap (λ zs. x ∷ zs) (filter-filter q xs h))
      | inr f ↦ rw (e, f) (filter-filter q xs h)
    ]
    | inr e ↦ elim (Bool-cases (p x)) [
      | inl f ↦ absurd (true≢false (sym (h x f) ∙ e))
      | inr f ↦ rw (e, f) (filter-filter q xs h)
    ]
  ]

  filter-complement : (xs : List A) → filter p (filter (λ x. not (p x)) xs) ≡ []
  filter-complement [] = refl
  filter-complement (x ∷ xs) = elim (Bool-cases (p x)) [
    | inl e ↦ rw e (filter-complement xs)
    | inr e ↦ rw (e, e) (filter-complement xs)
  ]

append-nil : {A : Type 0} (xs : List A) → xs ++ [] ≡ xs
append-nil [] = refl
append-nil (x ∷ xs) = ap (λ zs. x ∷ zs) (append-nil xs)

of_other :
    (claim tenant claim' tenant' : ℕ) (c : FactConflict)
    → (claim' == claim && tenant' == tenant) ≡ false
    → of_claim claim' tenant' c ≡ true
    → of_claim claim tenant c ≡ false
of_other claim tenant claim' tenant' c n h = ground arith

of_own :
    (claim tenant claim' tenant' : ℕ) (c : FactConflict)
    → (claim' == claim && tenant' == tenant) ≡ false
    → of_claim claim tenant c ≡ true
    → of_claim claim' tenant' c ≡ false
of_own claim tenant claim' tenant' c n h = ground arith

-- After a rebuild, the conflicts of the claim are those detected among its comparable facts, those
-- of every other claim and tenant are what they were, and a second rebuild changes nothing.
pub rebuild_conflicts-replaces :
    (claim tenant : ℕ) (db : Db)
    → let rebuilt = rebuild_conflicts claim tenant db in
      (conflicts rebuilt claim tenant ≡ pairwise tenant claim (comparable_facts db claim tenant))
      × (((claim' tenant' : ℕ)
            → (claim' == claim && tenant' == tenant) ≡ false
            → conflicts rebuilt claim' tenant' ≡ conflicts db claim' tenant')
          × (rebuild_conflicts claim tenant rebuilt ≡ rebuilt))
unfolding rebuild_conflicts conflicts
rebuild_conflicts-replaces claim tenant db =
    let mine = of_claim claim tenant in
    let rest = λ (c : FactConflict). not (mine c) in
    let others = filter rest db.fact_conflicts in
    let found = pairwise tenant claim (comparable_facts db claim tenant) in
    let own = pairwise-own tenant claim (comparable_facts db claim tenant) in
    (
      filter-append mine others found
          ∙ (rw (filter-complement mine db.fact_conflicts) (filter-All mine found own)),
      (
        λ claim' tenant' n.
            let theirs = of_claim claim' tenant' in
            let none_found = filter-none theirs found (
              All-map (λ c. mine c ≡ true) (λ c. theirs c ≡ false) found
                (λ c h. of_own claim tenant claim' tenant' c n h) own) in
            filter-append theirs others found
            ∙ (ap (λ zs. filter theirs others ++ zs) none_found
                ∙ (append-nil (filter theirs others)
                    ∙ filter-filter theirs (λ c. not (mine c)) db.fact_conflicts
                        (λ c h. ap not (of_other claim tenant claim' tenant' c n h)))),
        ap (λ kept. record db { fact_conflicts = kept ++ found })
            (filter-append rest others found
              ∙ (ap (λ zs. filter rest others ++ zs)
                    (filter-none rest found (
                      All-map (λ c. mine c ≡ true) (λ c. rest c ≡ false) found (λ c h. ap not h)
                        own))
                  ∙ (append-nil (filter rest others)
                      ∙ filter-filter rest rest db.fact_conflicts (λ c h. h)))),
      ),
    )
