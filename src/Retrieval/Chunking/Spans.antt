-- ===== src/Retrieval/Chunking/Spans.antt =====
-- Where the text of a chunk stands in the page.
use native.Mathlib.Nat.{le_trans}
use mathlib.Core.Option.{some-injective}
use aegisclaims_ai.Prelude.{
  All, Bool, Bool-cases, Option, Option-cases, String, [], ap, arith, drop, false, inl, inr,
  is_empty, leb, length, length-take, ltb, none, refl, some, some≢none, suc, sym, take, true, zero,
  ℕ, ◌&&◌, ◌+◌, ◌-◌, ◌/◌, ◌<◌, ◌==◌, ◌∙◌, ◌∷◌, ◌≡◌, ◌≤◌, ◌⊎◌,
}
use aegisclaims_ai.Retrieval.Chunking.{
  DeterministicChunk, Text, break_at, chunk_from, chunk_of, chunk_page, later, leading, lstrip,
  max_chars, next_start, normalize, proposed_end, rfind, rfind_from, rstrip, slice, strip,
  window_end,
}
use aegisclaims_ai.Store.Claims.Isolation.{drop-drop}
use aegisclaims_ai.Workflow.Service.Operations.{start}

pub rfind_from-bounds :
    (c lo hi i j : ℕ) (text : Text) → rfind_from c lo hi i text ≡ some j → (lo ≤ j) × (j < hi)
unfolding rfind_from
rfind_from-bounds c lo hi i j [] h = cc
rfind_from-bounds c lo hi i j (x ∷ xs) h = elim (Option-cases (rfind_from c lo hi (suc i) xs)) [
  | inr (k, found) ↦ rfind_from-bounds c lo hi (suc i) j xs (found ∙ (rw found at h))
  | inl none_later ↦ elim (Bool-cases (x == c && (leb lo i && ltb i hi))) [
    | inr e ↦ absurd (some≢none (sym (rw (none_later, e) at h)))
    | inl e ↦
        let same : i ≡ j = some-injective i j (rw (none_later, e) at h) in
        (ground (arith, same, e), ground (arith, same, e))
  ]
]

-- A bound that holds of both holds of the later one.
later-bounds :
    (a b : Option ℕ) (lo hi j : ℕ)
    → ((k : ℕ) → a ≡ some k → (lo ≤ k) × (k < hi))
    → ((k : ℕ) → b ≡ some k → (lo ≤ k) × (k < hi))
    → later a b ≡ some j
    → (lo ≤ j) × (j < hi)
later-bounds none b lo hi j ha hb h = hb j h
later-bounds (some a) none lo hi j ha hb h = ha j h
later-bounds (some a) (some b) lo hi j ha hb h = elim (Bool-cases (ltb a b)) [
  | inl e ↦ hb j (rw e at h)
  | inr e ↦ ha j (rw e at h)
]

break_at-bounds :
    (start proposed : ℕ) (o : Option ℕ)
    → start + 350 < proposed
    → ((j : ℕ) → o ≡ some j → (start + 1 ≤ j) × (j < proposed + 1))
    → (start + 350 < break_at start proposed o) × (break_at start proposed o ≤ proposed)
break_at-bounds start proposed none l h = (l, omega arith)
break_at-bounds start proposed (some b) l h = elim (Bool-cases (ltb (start + 700 / 2) b)) [
  | inl e ↦ rw e (ground (arith, e), omega (arith, (h b refl).1))
  | inr e ↦ rw e (l, omega arith)
]

ltb_self : (n : ℕ) → ltb n n ≡ false
ltb_self n = ground arith

proposed_end-cases :
    (size start : ℕ)
    → ((start + 700 < size) × (proposed_end size start ≡ start + 700))
      ⊎ ((size ≤ start + 700) × (proposed_end size start ≡ size))
unfolding proposed_end
proposed_end-cases size start = elim (Bool-cases (ltb (start + 700) size)) [
  | inl e ↦ inl (ground (arith, e), rw e refl)
  | inr e ↦ inr (ground (arith, e), rw e refl)
]

less : (a b : ℕ) → a < b → ltb a b ≡ true
less a b h = ground arith

-- Where a window ends: at the end of the text, or between 350 and 700 characters after its start.
pub window_end-bounds :
    (text : Text) (start : ℕ)
    → start < length text
    → (start < window_end text start)
      × ((window_end text start ≤ length text)
          × ((window_end text start ≤ start + 700)
              × ((window_end text start ≡ length text) ⊎ (start + 350 < window_end text start))))
unfolding window_end
window_end-bounds text start l = elim (proposed_end-cases (length text) start) [
  | inl (inside, e) ↦
      let both =
        break_at-bounds start (start + 700)
          (later (rfind 10 (start + 1) (start + 700 + 1) text)
            (rfind 32 (start + 1) (start + 700 + 1) text))
          (omega arith)
          (λ j.
            later-bounds (rfind 10 (start + 1) (start + 700 + 1) text)
              (rfind 32 (start + 1) (start + 700 + 1) text) (start + 1) (start + 700 + 1) j
              (λ k. rfind_from-bounds 10 (start + 1) (start + 700 + 1) 0 k text)
              (λ k. rfind_from-bounds 32 (start + 1) (start + 700 + 1) 0 k text)) in
      rw (e, less (start + 700) (length text) inside)
        (omega (arith, both), (omega (arith, both, inside), (both.1, inr both.0)))
  | inr (outside, e) ↦ rw (e, ltb_self (length text)) (l, (omega arith, (outside, inl refl)))
]

module _ (is_space : ℕ → Bool) where
  -- Stripping on the left drops the leading white space.
  pub lstrip-drop : (text : Text) → lstrip is_space text ≡ drop (leading is_space text) text
  unfolding lstrip leading
  lstrip-drop [] = refl
  lstrip-drop (x ∷ xs) = elim (Bool-cases (is_space x)) [
    | inl e ↦ rw e (lstrip-drop xs)
    | inr e ↦ rw e refl
  ]

  -- Stripping on the right keeps a prefix.
  pub rstrip-take : (text : Text) → rstrip is_space text ≡ take (length (rstrip is_space text)) text
  unfolding rstrip
  rstrip-take [] = refl
  rstrip-take (x ∷ xs) = elim (Bool-cases (is_space x && is_empty (rstrip is_space xs))) [
    | inl e ↦ rw e refl
    | inr e ↦ rw e (ap (λ (zs : Text). x ∷ zs) (rstrip-take xs))
  ]

  pub rstrip-length-le : (text : Text) → length (rstrip is_space text) ≤ length text
  unfolding rstrip
  rstrip-length-le [] = omega arith
  rstrip-length-le (x ∷ xs) = elim (Bool-cases (is_space x && is_empty (rstrip is_space xs))) [
    | inl e ↦ rw e (omega arith)
    | inr e ↦ rw e (omega (arith, rstrip-length-le xs))
  ]

  pub leading-le : (text : Text) → leading is_space text ≤ length text
  unfolding leading
  leading-le [] = omega arith
  leading-le (x ∷ xs) = elim (Bool-cases (is_space x)) [
    | inl e ↦ rw e (omega (arith, leading-le xs))
    | inr e ↦ rw e (omega arith)
  ]

drop-length : (n : ℕ) (xs : Text) → length (drop n xs) ≡ length xs - n
drop-length zero xs = omega arith
drop-length (suc n) [] = omega arith
drop-length (suc n) (x ∷ xs) = drop-length n xs ∙ omega arith

take-drop-take :
    (n k m : ℕ) (xs : Text) → k + n ≤ m → take n (drop k (take m xs)) ≡ take n (drop k xs)
take-drop-take zero k m xs h = refl
take-drop-take (suc n) zero zero xs h = absurd (omega arith)
take-drop-take (suc n) zero (suc m) [] h = refl
take-drop-take (suc n) zero (suc m) (x ∷ xs) h =
    ap (λ (zs : Text). x ∷ zs) (take-drop-take n zero m xs (omega arith))
take-drop-take (suc n) (suc k) zero xs h = absurd (omega arith)
take-drop-take (suc n) (suc k) (suc m) [] h = refl
take-drop-take (suc n) (suc k) (suc m) (x ∷ xs) h = take-drop-take (suc n) k m xs (omega arith)

strip-fits :
    (is_space : ℕ → Bool) (w : Text) → leading is_space w + length (strip is_space w) ≤ length w
strip-fits is_space w =
    let kept = rstrip-length-le is_space (lstrip is_space w) in
    let left =
      ap (λ (zs : Text). length zs) (lstrip-drop is_space w) ∙ drop-length (leading is_space w) w in
    omega (arith, kept, left, leading-le is_space w)

module _ (is_space : ℕ → Bool) (identify : ℕ → ℕ → ℕ → Text → String) where
  -- What a chunk says of the page that it was cut from.
  pub record IsSpan (normalized : Text) (c : DeterministicChunk) : Type 0 where
    pub excerpt : c.text ≡ slice c.source_start c.source_end normalized
    pub ordered : c.source_start ≤ c.source_end
    pub inside : c.source_end ≤ length normalized
    pub short : length c.text ≤ max_chars

  chunk_of-IsSpan :
      (normalized : Text) (ordinal start end : ℕ)
      → start ≤ end
      → end ≤ length normalized
      → end ≤ start + 700
      → IsSpan normalized (chunk_of is_space identify normalized ordinal start end)
  unfolding chunk_of
  chunk_of-IsSpan normalized ordinal start end a b c =
      let w = slice start end normalized in
      let k = leading is_space w in
      let n = length (strip is_space w) in
      let size : length w ≤ end - start = length-take (end - start) (drop start normalized) in
      let fits : k + n ≤ end - start = le_trans (strip-fits is_space w) size in
      let width : n ≡ start + k + n - (start + k) = omega arith in
      record {
        excerpt =
            rstrip-take is_space (lstrip is_space w)
            ∙ (ap (λ (zs : Text). take n zs) (lstrip-drop is_space w)
                ∙ (take-drop-take n k (end - start) (drop start normalized) fits
                    ∙ (ap (λ (zs : Text). take n zs) (sym (drop-drop start k normalized))
                        ∙ ap (λ i. take i (drop (start + k) normalized)) width)));
        ordered = omega arith;
        inside = omega (arith, fits);
        short = omega (arith, fits);
      }

  chunk_from-IsSpan :
      (fuel : ℕ) (normalized : Text) (ordinal start : ℕ)
      → All (IsSpan normalized) (chunk_from is_space identify fuel normalized ordinal start)
  unfolding chunk_from
  chunk_from-IsSpan zero normalized ordinal start = tt
  chunk_from-IsSpan (suc fuel) normalized ordinal start =
      elim (Bool-cases (ltb start (length normalized))) [
        | inr past ↦ rw past tt
        | inl l ↦
            let bounds = window_end-bounds normalized start (ground (arith, l)) in
            let end = window_end normalized start in
            let first =
              chunk_of-IsSpan normalized ordinal start end (omega (arith, bounds.0)) bounds.1.0
                bounds.1.1.0 in
            let rest = chunk_from-IsSpan fuel normalized (ordinal + 1) (next_start start end) in
            elim (Bool-cases (leb (length normalized) end)) [
              | inl e ↦ rw (l, e) (first, tt)
              | inr e ↦ rw (l, e) (first, rest)
            ]
      ]

  -- Every chunk of a page is the part of the normalized text that its span names, lies within the
  -- text, and has at most 700 characters.
  pub chunk_page-IsSpan :
      (text : Text) → All (IsSpan (normalize is_space text)) (chunk_page is_space identify text)
  unfolding chunk_page
  chunk_page-IsSpan text =
      chunk_from-IsSpan (length (normalize is_space text)) (normalize is_space text) 0 0
