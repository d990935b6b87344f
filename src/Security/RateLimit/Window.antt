-- ===== src/Security/RateLimit/Window.antt =====
-- How many requests one key gets through in one window, and when a refused client may come back.
use mathlib.Core.Path.{subst}
use native.Mathlib.Nat.{
  le_trans, le-div_iff_mul-le, div-mul-le_self, mod-lt, div-add-mod', div-eq_of_eq-mul_left,
}
use aegisclaims_ai.Prelude.{
  ==_iff, Bool, Bool-cases, List, Option, String, [], ap, arith, eq_iff, false, if◌then◌else◌, inl,
  inr, leb, none, refl, some, str_eq, suc, sym, true≢false, ℕ, ◌%◌, ◌&&◌, ◌*◌, ◌+◌, ◌-◌, ◌/◌, ◌<◌,
  ◌==◌, ◌∙◌, ◌∷◌, ◌≡◌, ◌≢◌, ◌≤◌, ◌⊎◌,
}
use aegisclaims_ai.Security.RateLimit.{
  Counter, Counts, RateLimitDecision, Request, check, check_all, counted, key_of, lookup, store,
}

-- The clock does not run backwards.
abbrev pub InOrder : ℕ → List Request → Type 0
InOrder t [] = Unit
InOrder t (r ∷ rs) = (t ≤ r.now) × InOrder r.now rs

-- The requests of a key that were allowed in a bucket.
unfoldable pub allowed_in : String → ℕ → ℕ → List Request → List RateLimitDecision → ℕ
allowed_in key window bucket [] ds = 0
allowed_in key window bucket (r ∷ rs) [] = 0
allowed_in key window bucket (r ∷ rs) (d ∷ ds) =
    let rest = allowed_in key window bucket rs ds in
    if str_eq (key_of r) key && (r.now / window == bucket && d.allowed) then suc rest else rest

store-lookup :
    (key : String) (c : Counter) (counts : Counts) → lookup key (store key c counts) ≡ some c
store-lookup key c [] = rw ((eq_iff key key).1 refl) refl
store-lookup key c ((k, d) ∷ counts) = elim (Bool-cases (str_eq k key)) [
  | inl e ↦ rw (e, (eq_iff key key).1 refl) refl
  | inr e ↦ rw (e, e) (store-lookup key c counts)
]

store-lookup_other :
    (key other : String) (c : Counter) (counts : Counts)
    → str_eq other key ≡ false
    → lookup key (store other c counts) ≡ lookup key counts
store-lookup_other key other c [] n = rw n refl
store-lookup_other key other c ((k, d) ∷ counts) n = elim (Bool-cases (str_eq k other)) [
  | inl e ↦
      let same : k ≡ other = (eq_iff k other).0 e in
      let away : str_eq k key ≡ false = ap (λ x. str_eq x key) same ∙ n in rw (e, n, away) refl
  | inr e ↦ elim (Bool-cases (str_eq k key)) [
    | inl f ↦ rw (e, f) refl
    | inr f ↦ rw (e, f) (store-lookup_other key other c counts n)
  ]
]

div_mono : (a b w : ℕ) → 0 < w → a ≤ b → a / w ≤ b / w
div_mono a b w pos h = (le-div_iff_mul-le pos).1 (le_trans (div-mul-le_self a w) h)

later_bucket : (a b : ℕ) → b < a → (a == b) ≡ false
later_bucket a b h = ground arith

skipped : (c : Bool) {n : ℕ} → n ≡ 0 → (if c && false then suc n else n) ≡ 0
skipped c h = ground arith

-- A bucket that is past gets no more requests.
past-none :
    (key : String) (window bucket t : ℕ) (rs : List Request) (ds : List RateLimitDecision)
    → 0 < window
    → InOrder t rs
    → bucket < t / window
    → allowed_in key window bucket rs ds ≡ 0
unfolding allowed_in
past-none key window bucket t [] ds pos h l = refl
past-none key window bucket t (r ∷ rs) [] pos h l = refl
past-none key window bucket t (r ∷ rs) (d ∷ ds) pos h l =
    let later = div_mono t r.now window pos h.0 in
    rw (later_bucket (r.now / window) bucket (omega arith)) (
      skipped (str_eq (key_of r) key)
        (past-none key window bucket r.now rs ds pos h.1 (omega arith)))

-- The counter of a key is of no later bucket than the clock's.
abbrev UpTo : ℕ → Option Counter → Type 0
UpTo now none = Unit
UpTo now (some c) = c.bucket ≤ now

-- What a counter says of a bucket is nothing, or the counter is of that bucket.
counted-cases :
    (bucket now : ℕ) (o : Option Counter) → UpTo now o → (counted bucket o ≡ 0) ⊎ (bucket ≤ now)
counted-cases bucket now none h = inl refl
counted-cases bucket now (some c) h = elim (Bool-cases (c.bucket == bucket)) [
  | inl e ↦ inr (omega (arith, h, (==_iff c.bucket bucket).0 e))
  | inr e ↦ inl (rw e refl)
]

UpTo-mono : (a b : ℕ) (o : Option Counter) → a ≤ b → UpTo a o → UpTo b o
UpTo-mono a b none l h = tt
UpTo-mono a b (some c) l h = omega arith

-- One decision on the key, from the bound on those that follow.
decide_own :
    (b bucket limit used total rest : ℕ)
    → (b ≡ bucket → used ≡ total)
    → (b ≡ bucket → rest ≤ limit - (used + 1))
    → (b ≢ bucket → rest ≤ limit - total)
    → (if (b == bucket) && leb (used + 1) limit then suc rest else rest) ≤ limit - total
decide_own b bucket limit used total rest counts same other = elim (Bool-cases (b == bucket)) [
  | inl e ↦
      let bound = same ((==_iff b bucket).0 e) in
      let count = counts ((==_iff b bucket).0 e) in
      rw e (elim (Bool-cases (leb (used + 1) limit)) [
        | inl f ↦ rw f (ground (arith, bound, count, f))
        | inr f ↦ rw f (omega (arith, bound, count))
      ])
  | inr e ↦ rw e (other (λ s. true≢false (sym ((==_iff b bucket).1 s) ∙ e)))
]

same_count : (b bucket : ℕ) (o : Option Counter) → b ≡ bucket → counted b o ≡ counted bucket o
same_count b bucket o h = ap (λ x. counted x o) h

next_count :
    (b bucket n rest limit : ℕ)
    → rest ≤ limit - counted bucket (some (record { bucket = b; count = n }))
    → b ≡ bucket
    → rest ≤ limit - n
next_count b bucket n rest limit h e = rw ((==_iff b bucket).1 e) at h

module _ (key : String) (limit window bucket : ℕ) (pos : 0 < window) where
  -- What is left of the limit bounds the requests that are let through.
  allowed-left :
      (t : ℕ) (rs : List Request) (counts : Counts)
      → InOrder t rs
      → UpTo (t / window) (lookup key counts)
      → allowed_in key window bucket rs (check_all limit window rs counts)
        ≤ limit - counted bucket (lookup key counts)
  unfolding allowed_in check_all check
  allowed-left t [] counts h u = omega arith
  allowed-left t (r ∷ rs) counts h u =
      let later = div_mono t r.now window pos h.0 in
      let b = r.now / window in
      let next : Counter = record {
        bucket = b;
        count = counted b (lookup (key_of r) counts) + 1;
      } in
      elim (Bool-cases (str_eq (key_of r) key)) [
        | inr away ↦
            let kept = store-lookup_other key (key_of r) next counts away in
            rw away (
              subst
                (λ o.
                  allowed_in key window bucket rs
                    (check_all limit window rs (store (key_of r) next counts))
                  ≤ limit - counted bucket o)
                kept
                (allowed-left r.now rs (store (key_of r) next counts) h.1 (
                  subst (UpTo b) (sym kept)
                    (UpTo-mono (t / window) b (lookup key counts) later u))))
        | inl own ↦
            let same = (eq_iff (key_of r) key).0 own in
            let after = store (key_of r) next counts in
            let kept : lookup key after ≡ some next =
              subst (λ k. lookup k after ≡ some next) same (store-lookup (key_of r) next counts) in
            let rest = allowed_in key window bucket rs (check_all limit window rs after) in
            let bound : rest ≤ limit - counted bucket (some next) =
              subst (λ o. rest ≤ limit - counted bucket o) kept
                (allowed-left r.now rs after h.1 (subst (UpTo b) (sym kept) (omega arith))) in
            rw own (
              decide_own b bucket limit (counted b (lookup (key_of r) counts))
                (counted bucket (lookup key counts)) rest
                (λ e.
                  ap (λ k. counted b (lookup k counts)) same
                  ∙ same_count b bucket (lookup key counts) e)
                (next_count b bucket next.count rest limit bound)
                (λ ne. elim (counted-cases bucket (t / window) (lookup key counts) u) [
                  | inl zero_used ↦ omega (arith, bound, zero_used)
                  | inr low ↦
                      let none_left =
                        past-none key window bucket r.now rs (check_all limit window rs after) pos
                          h.1 (omega (arith, low, later, ne)) in
                      omega (arith, none_left)
                ]))
      ]

-- A key gets at most `limit` requests through in each window, whatever the requests of other keys in
-- between, if the clock does not run backwards.
pub check_all-limit :
    (key : String) (limit window bucket t : ℕ) (rs : List Request)
    → 0 < window
    → InOrder t rs
    → allowed_in key window bucket rs (check_all limit window rs []) ≤ limit
check_all-limit key limit window bucket t rs pos h =
    le_trans (allowed-left key limit window bucket pos t rs [] h tt) (omega arith)

next_multiple : (n w m q : ℕ) → m < w → q * w + m ≡ n → n + (w - m) ≡ (q + 1) * w
next_multiple n w m q l h = omega arith

-- A refused client that comes back after `retry_after_seconds` comes in the next window, and that
-- wait is at least one second and at most the window.
check-retry_after :
    (limit window : ℕ) (r : Request) (counts : Counts)
    → 0 < window
    → let d = (check limit window r counts).0 in
      (0 < d.retry_after_seconds)
      × ((d.retry_after_seconds ≤ window)
          × ((r.now + d.retry_after_seconds) / window ≡ r.now / window + 1))
unfolding check
check-retry_after limit window r counts pos =
    let low = mod-lt r.now pos in
    let whole = div-add-mod' r.now window in
    (
      omega (arith, low),
      (
        omega arith,
        div-eq_of_eq-mul_left pos
            (next_multiple r.now window (r.now % window) (r.now / window) low whole),
      ),
    )
