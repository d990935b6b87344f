-- ===== src/Retrieval/Chunking/Coverage.antt =====
-- Which characters of a page its chunks hold.
use aegisclaims_ai.Prelude.{
  Bool, Bool-cases, List, String, [], ap, arith, drop, false, if◌then◌else◌, inl, inr, is_empty,
  leb, length, ltb, not, refl, suc, sym, take, true, true≢false, zero, ℕ, ◌&&◌, ◌+◌, ◌-◌, ◌<◌, ◌∙◌,
  ◌∷◌, ◌≡◌, ◌≤◌, ◌⊎◌,
}
use aegisclaims_ai.Retrieval.Chunking.{
  DeterministicChunk, Text, chunk_from, chunk_of, chunk_page, leading, lstrip, next_start,
  normalize, rstrip, slice, strip, window_end,
}
use aegisclaims_ai.Retrieval.Chunking.Spans.{lstrip-drop, window_end-bounds}
use aegisclaims_ai.Workflow.Service.Operations.{start}

zero_left : (i : ℕ) → i ≡ 0 + i
zero_left i = omega arith

suc_left : (k i : ℕ) → suc (k + i) ≡ suc k + i
suc_left k i = omega arith

kept : (b : Bool) (xs : Text) → 0 < length xs → (b && is_empty xs) ≡ false
kept true [] h = absurd (omega arith)
kept true (x ∷ xs) h = refl
kept false xs h = refl

is_less : (a b : ℕ) → a < b → ltb a b ≡ true
is_less a b h = ground arith

is_more : (a b : ℕ) → b < a → leb a b ≡ false
is_more a b h = ground arith

-- The next window starts after this one's start, and not after its end.
next_start-bounds :
    (start end : ℕ)
    → start < end
    → (start + 1 ≤ next_start start end) × (next_start start end ≤ end)
next_start-bounds start end h = elim (Bool-cases (ltb (start + 1) (end - 100))) [
  | inl e ↦ rw e (ground (arith, e), omega arith)
  | inr e ↦ rw e (omega arith, omega arith)
]

module _ (is_space : ℕ → Bool) where
  -- The text has a character that is not white space at an index.
  unfoldable pub is_inked : ℕ → Text → Bool
  is_inked i [] = false
  is_inked zero (x ∷ xs) = not (is_space x)
  is_inked (suc i) (x ∷ xs) = is_inked i xs

  is_inked-drop : (k i : ℕ) (xs : Text) → is_inked i (drop k xs) ≡ is_inked (k + i) xs
  unfolding is_inked
  is_inked-drop zero i xs = ap (λ n. is_inked n xs) (zero_left i)
  is_inked-drop (suc k) i [] = refl
  is_inked-drop (suc k) i (x ∷ xs) =
      is_inked-drop k i xs ∙ ap (λ n. is_inked n (x ∷ xs)) (suc_left k i)

  is_inked-take : (i n : ℕ) (xs : Text) → i < n → is_inked i (take n xs) ≡ is_inked i xs
  unfolding is_inked
  is_inked-take i zero xs h = absurd (omega arith)
  is_inked-take i (suc n) [] h = refl
  is_inked-take zero (suc n) (x ∷ xs) h = refl
  is_inked-take (suc i) (suc n) (x ∷ xs) h = is_inked-take i n xs (omega arith)

  is_inked-length : (i : ℕ) (xs : Text) → is_inked i xs ≡ true → i < length xs
  unfolding is_inked
  is_inked-length i [] h = absurd (true≢false (sym h))
  is_inked-length zero (x ∷ xs) h = omega arith
  is_inked-length (suc i) (x ∷ xs) h = omega (arith, is_inked-length i xs h)

  leading-is_inked : (i : ℕ) (xs : Text) → is_inked i xs ≡ true → leading is_space xs ≤ i
  unfolding is_inked leading
  leading-is_inked i [] h = omega arith
  leading-is_inked zero (x ∷ xs) h = elim (Bool-cases (is_space x)) [
    | inl e ↦ absurd (true≢false (sym (rw e at h)))
    | inr e ↦ rw e (omega arith)
  ]
  leading-is_inked (suc i) (x ∷ xs) h = elim (Bool-cases (is_space x)) [
    | inl e ↦ rw e (omega (arith, leading-is_inked i xs h))
    | inr e ↦ rw e (omega arith)
  ]

  rstrip-is_inked : (i : ℕ) (xs : Text) → is_inked i xs ≡ true → i < length (rstrip is_space xs)
  unfolding is_inked rstrip
  rstrip-is_inked i [] h = absurd (true≢false (sym h))
  rstrip-is_inked zero (x ∷ xs) h = elim (Bool-cases (is_space x)) [
    | inl e ↦ absurd (true≢false (sym (rw e at h)))
    | inr e ↦ rw e (omega arith)
  ]
  rstrip-is_inked (suc i) (x ∷ xs) h =
      let rest = rstrip-is_inked i xs h in
      rw (kept (is_space x) (rstrip is_space xs) (omega (arith, rest))) (omega (arith, rest))

  -- What is inked in a window is inside the span of its chunk.
  strip-is_inked :
      (j : ℕ) (w : Text)
      → is_inked j w ≡ true
      → (leading is_space w ≤ j) × (j < leading is_space w + length (strip is_space w))
  strip-is_inked j w h =
      let low = leading-is_inked j w h in
      let k = leading is_space w in
      let same : k + (j - k) ≡ j = omega (arith, low) in
      let inked : is_inked (j - k) (drop k w) ≡ true =
        is_inked-drop k (j - k) w ∙ (ap (λ n. is_inked n w) same ∙ h) in
      let inked' : is_inked (j - k) (lstrip is_space w) ≡ true =
        ap (λ (zs : Text). is_inked (j - k) zs) (lstrip-drop is_space w) ∙ inked in
      (low, omega (arith, low, rstrip-is_inked (j - k) (lstrip is_space w) inked'))

-- A chunk whose span holds the index.
abbrev pub Holds : ℕ → DeterministicChunk → Type 0
Holds i c = (c.source_start ≤ i) × (i < c.source_end)

abbrev pub Any : (DeterministicChunk → Type 0) → List DeterministicChunk → Type 0
Any P [] = ⊥
Any P (c ∷ cs) = P c ⊎ Any P cs

head_Any :
    (P : DeterministicChunk → Type 0) (b : Bool) (c : DeterministicChunk)
    (cs : List DeterministicChunk)
    → P c
    → Any P (if b then c ∷ [] else c ∷ cs)
head_Any P true c cs h = inl h
head_Any P false c cs h = inl h

module _ (is_space : ℕ → Bool) (identify : ℕ → ℕ → ℕ → Text → String) where
  chunk_of-Holds :
      (normalized : Text) (ordinal start end i : ℕ)
      → is_inked is_space i normalized ≡ true
      → start ≤ i
      → i < end
      → Holds i (chunk_of is_space identify normalized ordinal start end)
  unfolding chunk_of
  chunk_of-Holds normalized ordinal start end i h a b =
      let w = slice start end normalized in
      let same : start + (i - start) ≡ i = omega arith in
      let inked : is_inked is_space (i - start) w ≡ true =
        is_inked-take is_space (i - start) (end - start) (drop start normalized) (omega arith)
        ∙ (is_inked-drop is_space start (i - start) normalized
            ∙ (ap (λ n. is_inked is_space n normalized) same ∙ h)) in
      let inside = strip-is_inked is_space (i - start) w inked in
      (omega (arith, inside.0), omega (arith, inside.1))

  -- Fuel for as many characters as are left is enough to reach every one of them.
  chunk_from-Holds :
      (fuel : ℕ) (normalized : Text) (ordinal start i : ℕ)
      → is_inked is_space i normalized ≡ true
      → start ≤ i
      → length normalized ≤ start + fuel
      → Any (Holds i) (chunk_from is_space identify fuel normalized ordinal start)
  unfolding chunk_from
  chunk_from-Holds zero normalized ordinal start i h a f =
      absurd (omega (arith, is_inked-length is_space i normalized h))
  chunk_from-Holds (suc fuel) normalized ordinal start i h a f =
      let size = is_inked-length is_space i normalized h in
      let l : start < length normalized = omega (arith, size) in
      let end = window_end normalized start in
      let bounds = window_end-bounds normalized start l in
      let next = next_start-bounds start end (omega (arith, bounds.0)) in
      rw (is_less start (length normalized) l) (elim (Bool-cases (ltb i end)) [
        | inl here ↦
            head_Any (Holds i) (leb (length normalized) end)
              (chunk_of is_space identify normalized ordinal start end)
              (chunk_from is_space identify fuel normalized (ordinal + 1) (next_start start end))
              (chunk_of-Holds normalized ordinal start end i h a (ground (arith, here)))
        | inr beyond ↦
            let past : end ≤ i = ground (arith, beyond) in
            rw (is_more (length normalized) end (omega (arith, past, size))) (
              inr (
                chunk_from-Holds fuel normalized (ordinal + 1) (next_start start end) i h
                  (omega (arith, next.1, past)) (omega (arith, next.0, f))))
      ])

  -- Every character of the normalized page that is not white space is inside the span of a chunk.
  pub chunk_page-covers :
      (text : Text) (i : ℕ)
      → is_inked is_space i (normalize is_space text) ≡ true
      → Any (Holds i) (chunk_page is_space identify text)
  unfolding chunk_page
  chunk_page-covers text i h =
      chunk_from-Holds (length (normalize is_space text)) (normalize is_space text) 0 0 i h
        (omega arith) (omega arith)
