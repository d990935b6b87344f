-- ===== src/Store/Claims/Isolation.antt =====
-- What an actor can reach through the repositories.
use aegisclaims_ai.Prelude.{
  All, All-filter, All-map, All-take, Bool, Bool-cases, List, [], ap, arith, count_where, drop,
  filter, find-holds, inl, inr, length, length-take, ltb, refl, some, suc, sym, take, true, zero, ℕ,
  ◌&&◌, ◌++◌, ◌+◌, ◌==◌, ◌∙◌, ◌∷◌, ◌≡◌, ◌≤◌, ◌⊎◌,
}
use aegisclaims_ai.Domain.{Actor, is_admin}
use aegisclaims_ai.Store.{Claim, Db}
use aegisclaims_ai.Store.Claims.{
  count_for_actor, get_for_actor, insert_by, is_assigned, list_for_actor, sort_by, visible,
}

-- A claim that an actor may see: it is of their tenant, and they administer or are assigned.
pub record InScope (db : Db) (actor : Actor) (c : Claim) : Type 0 where
  pub same_tenant : c.tenant_id ≡ actor.tenant_id
  pub permitted : (is_admin actor ≡ true) ⊎ (is_assigned db actor c.id ≡ true)

visible-InScope :
    (db : Db) (actor : Actor) (c : Claim) → visible db actor c ≡ true → InScope db actor c
visible-InScope db actor c h = ground arith

InScope-visible :
    (db : Db) (actor : Actor) (c : Claim) → InScope db actor c → visible db actor c ≡ true
InScope-visible db actor c h = ground arith

-- A claim that is found for an actor has the identifier asked for, is of the actor's tenant, and
-- the actor administers or is assigned to it.
pub get_for_actor-InScope :
    (db : Db) (id : ℕ) (actor : Actor) (c : Claim)
    → get_for_actor db id actor ≡ some c
    → (c.id ≡ id) × InScope db actor c
unfolding get_for_actor
get_for_actor-InScope db id actor c h =
    let found = find-holds (λ c'. c'.id == id && visible db actor c') db.claims c h in
    (ground arith, visible-InScope db actor c (ground arith))

module _ {ℓ κ} {A : Type ℓ} (P : A → Type κ) (before : A → A → Bool) where
  All-insert_by : (x : A) (xs : List A) → P x → All P xs → All P (insert_by before x xs)
  unfolding insert_by
  All-insert_by x [] p h = (p, tt)
  All-insert_by x (y ∷ ys) p h = elim (Bool-cases (before y x)) [
    | inl e ↦ rw e (h.0, All-insert_by x ys p h.1)
    | inr e ↦ rw e (p, h)
  ]

  pub All-sort_by : (xs : List A) → All P xs → All P (sort_by before xs)
  unfolding sort_by
  All-sort_by [] h = tt
  All-sort_by (x ∷ xs) h = All-insert_by x (sort_by before xs) h.0 (All-sort_by xs h.1)

module _ {ℓ} {A : Type ℓ} (before : A → A → Bool) where
  length-insert_by : (x : A) (xs : List A) → length (insert_by before x xs) ≡ suc (length xs)
  unfolding insert_by
  length-insert_by x [] = refl
  length-insert_by x (y ∷ ys) = ground (arith, length-insert_by x ys)

  pub length-sort_by : (xs : List A) → length (sort_by before xs) ≡ length xs
  unfolding sort_by
  length-sort_by [] = refl
  length-sort_by (x ∷ xs) = omega (arith, length-insert_by x (sort_by before xs), length-sort_by xs)

module _ {ℓ} {A : Type ℓ} where
  pub All-drop {κ} : (P : A → Type κ) (n : ℕ) (xs : List A) → All P xs → All P (drop n xs)
  All-drop P zero xs h = h
  All-drop P (suc n) [] h = tt
  All-drop P (suc n) (x ∷ xs) h = All-drop P n xs h.1

  pub length-filter : (p : A → Bool) (xs : List A) → length (filter p xs) ≡ count_where p xs
  length-filter p [] = refl
  length-filter p (x ∷ xs) = ground (arith, length-filter p xs)

-- Every page of the claim list has the limit's number of claims at most, each in the actor's scope.
pub list_for_actor-InScope :
    (db : Db) (actor : Actor) (limit offset : ℕ)
    → (length (list_for_actor db actor limit offset) ≤ limit)
      × All (InScope db actor) (list_for_actor db actor limit offset)
unfolding list_for_actor
list_for_actor-InScope db actor limit offset = (
  length-take limit _,
  All-take (InScope db actor) limit _ (
      All-drop (InScope db actor) offset _ (
        All-sort_by (InScope db actor) _ _ (
          All-map (λ c. visible db actor c ≡ true) (InScope db actor) _ (visible-InScope db actor)
            (All-filter (visible db actor) db.claims)))),
)

module _ {ℓ} {A : Type ℓ} where
  drop_empty : (n : ℕ) → drop {A = A} n [] ≡ []
  drop_empty zero = refl
  drop_empty (suc n) = refl

  take_empty : (n : ℕ) → take {A = A} n [] ≡ []
  take_empty zero = refl
  take_empty (suc n) = refl

  pub drop-drop : (o a : ℕ) (xs : List A) → drop (o + a) xs ≡ drop a (drop o xs)
  drop-drop zero a xs = ap (λ n. drop n xs) (omega arith)
  drop-drop (suc o) a [] = drop_empty (suc o + a) ∙ sym (drop_empty a)
  drop-drop (suc o) a (x ∷ xs) = ap (λ n. drop n (x ∷ xs)) (next o a) ∙ drop-drop o a xs
    where
      next : (o a : ℕ) → suc o + a ≡ suc (o + a)
      next o a = omega arith

  take-take-drop : (a b : ℕ) (xs : List A) → take a xs ++ take b (drop a xs) ≡ take (a + b) xs
  take-take-drop zero b xs = ap (λ n. take n xs) (omega arith)
  take-take-drop (suc a) b [] = take_empty b ∙ sym (take_empty (suc a + b))
  take-take-drop (suc a) b (x ∷ xs) =
      ap (λ t. x ∷ t) (take-take-drop a b xs) ∙ ap (λ n. take n (x ∷ xs)) (next a b)
    where
      next : (a b : ℕ) → suc (a + b) ≡ suc a + b
      next a b = omega arith

-- Consecutive pages of the claim list join to the page that spans them: none is repeated or
-- skipped while the tables stay as they are.
list_for_actor-pages :
    (db : Db) (actor : Actor) (a b offset : ℕ)
    → list_for_actor db actor a offset ++ list_for_actor db actor b (offset + a)
      ≡ list_for_actor db actor (a + b) offset
unfolding list_for_actor
list_for_actor-pages db actor a b offset =
    let rows =
      sort_by (λ x y. ltb y.created_at x.created_at) (filter (visible db actor) db.claims) in
    ap (λ r. take a (drop offset rows) ++ take b r) (drop-drop offset a rows)
    ∙ take-take-drop a b (drop offset rows)

take_all {ℓ} : {A : Type ℓ} (n : ℕ) (xs : List A) → length xs ≤ n → take n xs ≡ xs
take_all zero [] h = refl
take_all zero (x ∷ xs) h = absurd (omega arith)
take_all (suc n) [] h = refl
take_all (suc n) (x ∷ xs) h = ap (λ t. x ∷ t) (take_all n xs (omega arith))

-- The dashboard's number of claims is the length of the claim list from its start, if the limit
-- leaves room for them.
count_for_actor-length :
    (db : Db) (actor : Actor) (limit : ℕ)
    → count_for_actor db actor ≤ limit
    → length (list_for_actor db actor limit 0) ≡ count_for_actor db actor
unfolding list_for_actor count_for_actor
count_for_actor-length db actor limit h =
    let sorted =
      sort_by (λ a b. ltb b.created_at a.created_at) (filter (visible db actor) db.claims) in
    let size : length sorted ≡ count_where (visible db actor) db.claims =
      length-sort_by _ (filter (visible db actor) db.claims)
      ∙ length-filter (visible db actor) db.claims in
    rw (take_all limit sorted (omega (arith, size))) size
