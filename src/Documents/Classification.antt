-- ===== src/Documents/Classification.antt =====
-- documents/classification.py.
use Prim.Native.String.{◌++◌ as concat}
use aegisclaims_ai.Prelude.{
  Bool, List, String, [], any_contains, contains, filter, if◌then◌else◌, is_empty, length, ltb,
  str_lt, ◌&&◌, ◌==◌, ◌||◌, ◌∷◌,
}
use aegisclaims_ai.ModelAssistance.Validation.{join_words}
use aegisclaims_ai.Prelude.Python.{Python}

abbrev pub category_signals : List (String × List String)
category_signals =
    ("notice_of_loss", "first notice of loss" ∷ "notice of loss" ∷ "reported loss date" ∷ [])
    ∷ ("contractor_estimate", "contractor estimate" ∷ "estimate amount" ∷ "contractor:" ∷ [])
    ∷ ("inspection_report", "inspection report" ∷ "inspection date" ∷ "inspector" ∷ [])
    ∷ ("policyholder_statement", "policyholder statement" ∷ "statement of loss" ∷ [])
    ∷ ("policy_document", "homesecure" ∷ "policy identifier" ∷ "coverage sections" ∷ [])
    ∷ ("correspondence", "correspondence" ∷ "subject:" ∷ "dear claims" ∷ [])
    ∷ ("weather_evidence", "weather event" ∷ "wind speed" ∷ "event evidence" ∷ [])
    ∷ ("property_damage_report", "damage report" ∷ "reported damage" ∷ [])
    ∷ []

abbrev pub signals_in : String → List String → List String
signals_in corpus = filter (λ (signal : String). contains signal corpus)

-- `matches`: the categories with a signal in the corpus.
unfoldable pub matches_in : String → List (String × List String) → List (String × List String)
matches_in corpus [] = []
matches_in corpus ((category, signals) ∷ rest) =
    let others = matches_in corpus rest in
    let found = signals_in corpus signals in
    if is_empty found then others else (category, found) ∷ others

-- The order of the key `(len(matches[key]), key)`.
abbrev pub exceeds : String × List String → String × List String → Bool
exceeds (x, xs) (y, ys) = ltb (length ys) (length xs) || (length ys == length xs && str_lt y x)

-- `max(matches, key=...)`, from the best so far.
unfoldable pub best_of : String × List String → List (String × List String) → String × List String
best_of best [] = best
best_of best (m ∷ ms) = best_of (if exceeds m best then m else best) ms

-- `classify_document`: the document type.
unfoldable pub classify_document : Python → String → List String → String
classify_document py filename pages =
    let corpus = py.lower (concat filename (concat "\n" (join_words pages))) in
    elim (matches_in corpus category_signals) [ [] ↦ "other" | m ∷ ms ↦ (best_of m ms).0 ]

-- `detect_injection_risk`
unfoldable pub detect_injection_risk : Python → List String → Bool
detect_injection_risk py pages =
    any_contains
      ("ignore previous instructions" ∷ "ignore all instructions" ∷ "approve this claim"
        ∷ "call the tool" ∷ "system prompt" ∷ [])
      (py.lower (join_words pages))
