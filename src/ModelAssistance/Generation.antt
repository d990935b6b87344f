-- ===== src/ModelAssistance/Generation.antt =====
-- model_assistance/service.py: the bounded loop of attempts in `create`.
pub mod Attempts
use aegisclaims_ai.Prelude.{
  List, Option, String, [], if◌then◌else◌, is_empty, none, some, suc, zero, ℕ, ◌+◌, ◌∷◌,
}
use aegisclaims_ai.ModelAssistance.Types.{
  BriefCandidate, ModelGenerationResult, ModelLibrary, ModelProvider, StructuredGenerationRequest,
  failed, generated, throttled, timed_out,
}
use aegisclaims_ai.ModelAssistance.Validation.{Citations, validate}
use aegisclaims_ai.Prelude.Python.{Python}

-- The local variables that the loop assigns.
pub record Progress : Type 0 where
  pub failures : List String
  pub result : Option ModelGenerationResult
  pub candidate : Option BriefCandidate
  pub attempts_used : ℕ

abbrev pub not_started : Progress
not_started = record { failures = []; result = none; candidate = none; attempts_used = 0 }

module _ (py : Python) (lib : ModelLibrary) (provider : ModelProvider) where
  -- A result that has come back: it is parsed and validated.
  unfoldable pub examine : Citations → String → ModelGenerationResult → Progress → Progress
  examine citations edition r p = elim (lib.model_validate_json r.content) [
    | none ↦ record p { result = some r; failures = "malformed_structured_output" ∷ [] }
    | some c ↦ record p {
      result = some r;
      candidate = some c;
      failures = validate py c citations edition;
    }
  ]

  -- The body of the loop at attempt `n`.
  unfoldable pub attempt :
      Citations → String → StructuredGenerationRequest → ℕ → Progress → Progress
  attempt citations edition request n before =
      let p = record before { attempts_used = n + 1 } in
      elim (provider.generate_structured n request) [
        | generated r ↦ examine citations edition r p
        | timed_out ↦ record p { failures = "provider_timeout" ∷ [] }
        | throttled ↦ record p { failures = "provider_throttled" ∷ [] }
        | failed ↦ record p { failures = "provider_unavailable" ∷ [] }
      ]

  -- `for attempt in range(...)`, from attempt `n` with `left` to go. It stops at the first attempt
  -- that leaves no failures.
  unfoldable pub attempts :
      Citations → String → StructuredGenerationRequest → ℕ → ℕ → Progress → Progress
  attempts citations edition request zero n p = p
  attempts citations edition request (suc left) n p =
      let p' = attempt citations edition request n p in
      let rest = attempts citations edition request left (n + 1) p' in
      if is_empty p'.failures then p' else rest
