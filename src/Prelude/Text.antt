-- ===== src/Prelude/Text.antt =====
-- Python's `in` and `==` on text.
use Prim.Native.Nat.{Ordering}
use Prim.Native.Nat.{ℕ, zero, suc, ◌≤◌}
use Prim.Native.String.{String, compare, count, [] as end, ◌∷◌ as char_cons}
use native.Mathlib.Omega.{arith}
use mathlib.Core.Bool.{Bool, true, false, ◌||◌}
use mathlib.Core.Option.{none, some}
use mathlib.Core.List.{List, [], ◌∷◌}
use text.Mathlib.TextLemmas.{length-cons}
use text.Mathlib.Text.{find?, ◌==◌}

abbrev pub str_eq : String → String → Bool
str_eq s t = s == t

-- `needle in text`
unfoldable pub contains : String → String → Bool
contains needle text = elim (find? text needle) [ none ↦ false | some _ ↦ true ]

-- `any(needle in text for needle in needles)`
unfoldable pub any_contains : List String → String → Bool
any_contains [] text = false
any_contains (n ∷ ns) text = contains n text || any_contains ns text

-- Python compares text by code points.
abbrev pub str_lt : String → String → Bool
str_lt s t = elim (compare s t) [ Ordering.lt ↦ true | _ ↦ false ]

-- `text[:n]`
abbrev pub str_take : ℕ → String → String
str_take zero s = end
str_take (suc n) end = end
str_take (suc n) (char_cons c s) = char_cons c (str_take n s)

pub count-str_take : (n : ℕ) (s : String) → count (str_take n s) ≤ n
count-str_take zero s = omega arith
count-str_take (suc n) end = omega arith
count-str_take (suc n) (char_cons c s) =
    omega (arith, length-cons c (str_take n s), count-str_take n s)
