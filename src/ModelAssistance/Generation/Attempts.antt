-- ===== src/ModelAssistance/Generation/Attempts.antt =====
-- What the bounded loop of attempts leaves behind.
use mathlib.Core.Path.{subst}
use mathlib.Core.Option.{some-injective}
use aegisclaims_ai.Prelude.{
  Bool-cases, List, Option-cases, String, [], arith, inl, inr, is_empty, refl, some, suc, sym, true,
  true≢false, zero, ℕ, ◌+◌, ◌<◌, ◌∷◌, ◌≡◌,
}
use aegisclaims_ai.ModelAssistance.Generation.{Progress, attempt, attempts, examine}
use aegisclaims_ai.ModelAssistance.Types.{
  BriefCandidate, ModelGenerationResult, ModelLibrary, ModelProvider, ProviderOutcome,
  StructuredGenerationRequest, failed, generated, throttled, timed_out,
}
use aegisclaims_ai.ModelAssistance.Validation.{Citations, validate}
use aegisclaims_ai.Prelude.Python.{Python}

module _ (py : Python) (lib : ModelLibrary) (provider : ModelProvider) (d : Citations)
    (edition : String) (request : StructuredGenerationRequest) where
  -- A progress without failures has a candidate that has passed the validation, or none.
  abbrev pub IsSound : Progress → Type 0
  IsSound p =
      (c : BriefCandidate)
      → is_empty p.failures ≡ true
      → p.candidate ≡ some c
      → validate py c d edition ≡ []

  pub is_empty-nil {ℓ} : {A : Type ℓ} (xs : List A) → is_empty xs ≡ true → xs ≡ []
  is_empty-nil [] h = refl
  is_empty-nil (x ∷ xs) h = absurd (true≢false (sym h))

  pub examine-IsSound :
      (r : ModelGenerationResult) (p : Progress) → IsSound (examine py lib provider d edition r p)
  unfolding examine
  examine-IsSound r p = elim (Option-cases (lib.model_validate_json r.content)) [
    | inl e ↦ rw (e, examine) (λ c h q. absurd (true≢false (sym h)))
    | inr (x, e) ↦
        rw (e, examine)
          (λ c h q.
            subst (λ y. validate py y d edition ≡ []) (some-injective x c q)
              (is_empty-nil (validate py x d edition) h))
  ]

  pub attempt-IsSound :
      (n : ℕ) (p : Progress) → IsSound (attempt py lib provider d edition request n p)
  unfolding attempt
  attempt-IsSound n p = step (provider.generate_structured n request)
    where
      step :
          (o : ProviderOutcome)
          → IsSound (elim o [
            | generated r ↦ examine py lib provider d edition r (record p { attempts_used = n + 1 })
            | timed_out ↦ record p { attempts_used = n + 1; failures = "provider_timeout" ∷ [] }
            | throttled ↦ record p { attempts_used = n + 1; failures = "provider_throttled" ∷ [] }
            | failed ↦ record p { attempts_used = n + 1; failures = "provider_unavailable" ∷ [] }
          ])
      step (generated r) = examine-IsSound r (record p { attempts_used = n + 1 })
      step timed_out = λ c h q. absurd (true≢false (sym h))
      step throttled = λ c h q. absurd (true≢false (sym h))
      step failed = λ c h q. absurd (true≢false (sym h))

  pub attempts-IsSound :
      (left n : ℕ) (p : Progress)
      → IsSound p
      → IsSound (attempts py lib provider d edition request left n p)
  unfolding attempts
  attempts-IsSound zero n p h = h
  attempts-IsSound (suc left) n p h =
      let p' = attempt py lib provider d edition request n p in
      elim (Bool-cases (is_empty p'.failures)) [
        | inl e ↦ rw e (attempt-IsSound n p)
        | inr e ↦ rw e (attempts-IsSound left (n + 1) p' (attempt-IsSound n p))
      ]

  -- Attempt `n` yields a candidate that passes the validation.
  pub record Yields (n : ℕ) : Type 0 where
    pub result : ModelGenerationResult
    pub candidate : BriefCandidate
    pub returned : provider.generate_structured n request ≡ generated result
    pub parsed : lib.model_validate_json result.content ≡ some candidate
    pub valid : validate py candidate d edition ≡ []

  abbrev pub Succeeded : Progress → Type 0
  Succeeded p = (c : BriefCandidate) × ((p.failures ≡ []) × (p.candidate ≡ some c))

  pub examine-Succeeded :
      (r : ModelGenerationResult) (p : Progress)
      → is_empty (examine py lib provider d edition r p).failures ≡ true
      → Succeeded (examine py lib provider d edition r p)
  unfolding examine
  examine-Succeeded r p h = elim (Option-cases (lib.model_validate_json r.content)) [
    | inl e ↦ absurd (true≢false (sym (rw (e, examine) at h)))
    | inr (c, e) ↦
        let v : validate py c d edition ≡ [] =
          is_empty-nil (validate py c d edition) (rw (e, examine) at h) in
        rw (e, examine) (c, (v, refl))
  ]

  -- An attempt without failures has a candidate.
  pub attempt-Succeeded :
      (n : ℕ) (p : Progress)
      → is_empty (attempt py lib provider d edition request n p).failures ≡ true
      → Succeeded (attempt py lib provider d edition request n p)
  unfolding attempt
  attempt-Succeeded n p = step (provider.generate_structured n request)
    where
      step :
          (o : ProviderOutcome)
          → let x : Progress = elim o [
            | generated r ↦ examine py lib provider d edition r (record p { attempts_used = n + 1 })
            | timed_out ↦ record p { attempts_used = n + 1; failures = "provider_timeout" ∷ [] }
            | throttled ↦ record p { attempts_used = n + 1; failures = "provider_throttled" ∷ [] }
            | failed ↦ record p { attempts_used = n + 1; failures = "provider_unavailable" ∷ [] }
          ] in
            is_empty x.failures ≡ true → Succeeded x
      step (generated r) = examine-Succeeded r (record p { attempts_used = n + 1 })
      step timed_out = λ h. absurd (true≢false (sym h))
      step throttled = λ h. absurd (true≢false (sym h))
      step failed = λ h. absurd (true≢false (sym h))

  pub Yields-no_failures :
      (n : ℕ) (p : Progress)
      → Yields n
      → is_empty (attempt py lib provider d edition request n p).failures ≡ true
  unfolding attempt examine
  Yields-no_failures n p y = rw (y.returned, attempt, examine, y.parsed, y.valid) refl

  pub attempts-Succeeded :
      (k left n : ℕ) (p : Progress)
      → k < left
      → Yields (n + k)
      → Succeeded (attempts py lib provider d edition request left n p)
  unfolding attempts
  attempts-Succeeded k zero n p lt y = absurd (omega (arith, lt))
  attempts-Succeeded zero (suc left) n p lt y =
      let same : n + 0 ≡ n = omega arith in
      let e = Yields-no_failures n p (subst Yields same y) in rw e (attempt-Succeeded n p e)
  attempts-Succeeded (suc j) (suc left) n p lt y =
      let p' = attempt py lib provider d edition request n p in
      let same : n + suc j ≡ n + 1 + j = omega arith in
      let rest = attempts-Succeeded j left (n + 1) p' (omega (arith, lt)) (subst Yields same y) in
      elim (Bool-cases (is_empty p'.failures)) [
        | inl e ↦ rw e (attempt-Succeeded n p e)
        | inr e ↦ rw e rest
      ]
