-- ===== src/ModelAssistance/Validation/Bounds.antt =====
-- How much of the retrieved text the model is shown.
use mathlib.Core.List.{Mem, mem-cons_self, mem-cons_of_mem}
use Prim.Native.String.{count}
use aegisclaims_ai.Prelude.{
  All, All-map, Bool-cases, List, [], arith, count-str_take, inl, inr, ltb, str_take, ℕ, ◌+◌, ◌-◌,
  ◌∷◌, ◌≤◌,
}
use aegisclaims_ai.ModelAssistance.Types.{ModelEvidence}
use aegisclaims_ai.ModelAssistance.Validation.{Citations, bounded_evidence, handles}

unfoldable pub total_characters : List ModelEvidence → ℕ
total_characters [] = 0
total_characters (e ∷ es) = count e.text + total_characters es

-- The model is shown at most `remaining` characters of evidence, only under handles that it may
-- cite.
pub bounded_evidence-IsBounded :
    (remaining : ℕ) (d : Citations)
    → (total_characters (bounded_evidence remaining d) ≤ remaining)
      × All (λ (e : ModelEvidence). Mem e.handle (handles d)) (bounded_evidence remaining d)
unfolding bounded_evidence total_characters
bounded_evidence-IsBounded remaining [] = (omega arith, tt)
bounded_evidence-IsBounded remaining ((h, item) ∷ d) = elim (Bool-cases (ltb 0 remaining)) [
  | inl e ↦
      let text = str_take remaining item.chunk.normalized_text in
      let fits = count-str_take remaining item.chunk.normalized_text in
      let rest = bounded_evidence-IsBounded (remaining - count text) d in
      rw (e, bounded_evidence)
        ((
          omega (arith, fits, rest.0),
          (
            mem-cons_self,
            All-map (λ (x : ModelEvidence). Mem x.handle (handles d))
                (λ (x : ModelEvidence). Mem x.handle (h ∷ handles d))
                (bounded_evidence (remaining - count text) d) (λ x m. mem-cons_of_mem h m) rest.1,
          ),
        ))
  | inr e ↦ rw (e, bounded_evidence) (omega arith, tt)
]
