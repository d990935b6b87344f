-- ===== src/Retrieval/Chunking.antt =====
-- retrieval/chunking.py: the overlapping windows of a page. A text is the list of its code points;
-- `is_space` is `str.isspace` and `identify` the UUID of a chunk's ordinal, span and text. The loop
-- has the length of the text as fuel.
pub mod Spans
pub mod Coverage
mod Tests
use aegisclaims_ai.Prelude.{
  Bool, List, Option, String, [], drop, if◌then◌else◌, is_empty, leb, length, ltb, none, some, suc,
  take, zero, ℕ, ◌&&◌, ◌+◌, ◌-◌, ◌/◌, ◌==◌, ◌∷◌,
}
use aegisclaims_ai.Workflow.Service.Operations.{start}

abbrev pub Text : Type 0
Text = List ℕ

abbrev pub max_chars : ℕ
max_chars = 700

abbrev pub overlap_chars : ℕ
overlap_chars = 100

-- `DeterministicChunk`
pub record DeterministicChunk : Type 0 where
  pub identifier : String
  pub ordinal : ℕ
  pub text : Text
  pub source_start : ℕ
  pub source_end : ℕ

-- `text.replace("\r\n", "\n")`
unfoldable pub replace_crlf : Text → Text
replace_crlf [] = []
replace_crlf (x ∷ []) = x ∷ []
replace_crlf (x ∷ y ∷ xs) =
    let pair = replace_crlf xs in
    let one = replace_crlf (y ∷ xs) in if x == 13 && y == 10 then 10 ∷ pair else x ∷ one

-- `text.replace("\r", "\n")`
unfoldable pub replace_cr : Text → Text
replace_cr [] = []
replace_cr (x ∷ xs) = (if x == 13 then 10 else x) ∷ replace_cr xs

-- `text[a:b]`
abbrev pub slice : ℕ → ℕ → Text → Text
slice a b text = take (b - a) (drop a text)

-- `text.rfind(c, lo, hi)` in a text whose first character has the index `i`.
unfoldable pub rfind_from : ℕ → ℕ → ℕ → ℕ → Text → Option ℕ
rfind_from c lo hi i [] = none
rfind_from c lo hi i (x ∷ xs) = elim (rfind_from c lo hi (suc i) xs) [
  | some j ↦ some j
  | none ↦ if x == c && (leb lo i && ltb i hi) then some i else none
]

abbrev pub rfind : ℕ → ℕ → ℕ → Text → Option ℕ
rfind c lo hi text = rfind_from c lo hi 0 text

-- `max` of two results of `rfind`, where `none` is -1.
abbrev pub later : Option ℕ → Option ℕ → Option ℕ
later none b = b
later (some a) none = some a
later (some a) (some b) = if ltb a b then some b else some a

-- The break that is taken: only one in the second half of the window.
abbrev pub break_at : ℕ → ℕ → Option ℕ → ℕ
break_at start proposed none = proposed
break_at start proposed (some b) = if ltb (start + max_chars / 2) b then b else proposed

-- `proposed_end`
unfoldable pub proposed_end : ℕ → ℕ → ℕ
proposed_end size start = if ltb (start + max_chars) size then start + max_chars else size

-- `end`
unfoldable pub window_end : Text → ℕ → ℕ
window_end text start =
    let size = length text in
    let proposed = proposed_end size start in
    if ltb proposed size
    then break_at start proposed (
        later (rfind 10 (start + 1) (proposed + 1) text) (rfind 32 (start + 1) (proposed + 1) text))
    else proposed

-- `max(end - OVERLAP_CHARS, start + 1)`
abbrev pub next_start : ℕ → ℕ → ℕ
next_start start end =
    if ltb (start + 1) (end - overlap_chars) then end - overlap_chars else start + 1

module _ (is_space : ℕ → Bool) where
  unfoldable pub lstrip : Text → Text
  lstrip [] = []
  lstrip (x ∷ xs) = if is_space x then lstrip xs else x ∷ xs

  unfoldable pub rstrip : Text → Text
  rstrip [] = []
  rstrip (x ∷ xs) = let rest = rstrip xs in if is_space x && is_empty rest then [] else x ∷ rest

  -- `text.strip()`
  abbrev pub strip : Text → Text
  strip text = rstrip (lstrip text)

  -- How far the loop over `actual_start` goes in the window.
  unfoldable pub leading : Text → ℕ
  leading [] = 0
  leading (x ∷ xs) = if is_space x then suc (leading xs) else 0

  -- The text that is cut into chunks.
  abbrev pub normalize : Text → Text
  normalize text = strip (replace_cr (replace_crlf text))

  module _ (identify : ℕ → ℕ → ℕ → Text → String) where
    -- The chunk of one window.
    unfoldable pub chunk_of : Text → ℕ → ℕ → ℕ → DeterministicChunk
    chunk_of normalized ordinal start end =
        let window = slice start end normalized in
        let chunk_text = strip window in
        let actual_start = start + leading window in
        let actual_end = actual_start + length chunk_text in
        record {
          identifier = identify ordinal actual_start actual_end chunk_text;
          ordinal = ordinal;
          text = chunk_text;
          source_start = actual_start;
          source_end = actual_end;
        }

    -- The `while` loop.
    unfoldable pub chunk_from : ℕ → Text → ℕ → ℕ → List DeterministicChunk
    chunk_from zero normalized ordinal start = []
    chunk_from (suc fuel) normalized ordinal start =
        let end = window_end normalized start in
        let rest = chunk_from fuel normalized (ordinal + 1) (next_start start end) in
        let chunk = chunk_of normalized ordinal start end in
        if ltb start (length normalized)
        then (if leb (length normalized) end then chunk ∷ [] else chunk ∷ rest)
        else []

    -- `chunk_page`
    unfoldable pub chunk_page : Text → List DeterministicChunk
    chunk_page text =
        let normalized = normalize text in chunk_from (length normalized) normalized 0 0
