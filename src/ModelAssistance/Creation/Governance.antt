-- ===== src/ModelAssistance/Creation/Governance.antt =====
-- `create` for a key that the claim has not used: its results, its errors, and its retries.
use mathlib.Core.Path.{subst}
use aegisclaims_ai.Prelude.{
  Option-cases, ap, arith, inl, inr, refl, some, sym, ℕ, ◌+◌, ◌∙◌, ◌≡◌, ◌≤◌,
}
use aegisclaims_ai.ModelAssistance.Creation.{
  Prepared, accepted, create, generation_request, prepared,
}
use aegisclaims_ai.ModelAssistance.Creation.Outcome.{
  IsGroundedBrief, IsRejected, Ready, create-accepted, create-rejected, err-injective,
  ready_citations, after_rejection-IsRejected, result_of_attempts,
}
use aegisclaims_ai.ModelAssistance.Generation.{not_started}
use aegisclaims_ai.ModelAssistance.Generation.Attempts.{Succeeded, Yields, attempts-Succeeded}
use aegisclaims_ai.ModelAssistance.Service.{
  BriefEnv, BriefError, BriefLimits, BriefRequest, ClaimEvidenceBriefView, generation_rejected,
}
use aegisclaims_ai.ModelAssistance.Types.{BriefCandidate, ModelLibrary, ModelProvider}
use aegisclaims_ai.Prelude.Exec.{Result, err, err≢ok, ok, ok-injective}
use aegisclaims_ai.Prelude.Python.{Python}
use aegisclaims_ai.Retrieval.Answering.{Retrieve, grounded}
use aegisclaims_ai.Store.{Session}

-- What holds of the value and the session of one result holds of those of an equal result.
pub transport_ok :
    {E A S : Type 0} (P : A → S → Type 0) (a b : A) (s t : S)
    → (let x : Result E A × S = (ok a, s) in x ≡ (ok b, t))
    → P a s
    → P b t
transport_ok {E} {A} {S} P a b s t h p =
    let same : a ≡ b = ok-injective {E = E} a b (ap (λ (x : Result E A × S). x.0) h) in
    subst (λ x. P x t) same (subst (λ x. P a x) (ap (λ (x : Result E A × S). x.1) h) p)

module _ (py : Python) (lib : ModelLibrary) (provider : ModelProvider) (limits : BriefLimits)
    (retrieve : Retrieve) (env : BriefEnv) (req : BriefRequest) (s : Session)
    (g : Ready retrieve req s) where
  abbrev made : Prepared
  made = result_of_attempts py lib provider limits retrieve env req s g

  -- A brief that is returned for a new key was added and committed. Its citations are of passages
  -- that the retrieval returned, each of the claim's policy edition or of none; the summaries and
  -- limitations that are searched have no prohibited phrase; it asks for a human review whenever a
  -- review of the claim is under way.
  pub create-IsGroundedBrief :
      (v : ClaimEvidenceBriefView) (s' : Session)
      → create py lib provider limits retrieve env req s ≡ (ok v, s')
      → IsGroundedBrief py retrieve req s g v s'
  create-IsGroundedBrief v s' h =
      elim (Option-cases (accepted py lib provider limits made.progress)) [
        | inl e ↦
            let r = create-rejected py lib provider limits retrieve env req s g e in
            absurd (err≢ok (ap (λ x. x.0) (sym r ∙ h)))
        | inr (c, e) ↦
            let (w, t, q, grounded) =
              create-accepted py lib provider limits retrieve env req s g c e in
            transport_ok {E = BriefError} (IsGroundedBrief py retrieve req s g) w v t s' (sym q ∙ h)
              grounded
      ]

  -- When `create` raises for a new key after the retrieval has answered, it is the rejection: no
  -- brief was added, one invocation with the outcome "rejected" and one audit row were, and they are
  -- committed.
  pub create-IsRejected :
      (e : BriefError) (s' : Session)
      → create py lib provider limits retrieve env req s ≡ (err e, s')
      → (e ≡ generation_rejected) × IsRejected retrieve req s g s'
  create-IsRejected e s' h = elim (Option-cases (accepted py lib provider limits made.progress)) [
    | inl n ↦
        let r = create-rejected py lib provider limits retrieve env req s g n in
        (
          err-injective e generation_rejected (ap (λ x. x.0) (sym h ∙ r)),
          subst (λ x. IsRejected retrieve req s g x) (ap (λ x. x.1) (sym r ∙ h))
              (after_rejection-IsRejected py lib provider limits retrieve env req s g n),
        )
    | inr (c, a) ↦
        let (w, t, q, grounded) = create-accepted py lib provider limits retrieve env req s g c a in
        absurd (err≢ok (ap (λ x. x.0) (sym h ∙ q)))
  ]

  pub accepted-Succeeded :
      Succeeded py lib provider
        (ready_citations py retrieve req s g)
        g.claim.policy_edition
        (generation_request py lib provider limits req g.claim
          (ready_citations py retrieve req s g))
        made.progress
      → (c : BriefCandidate) × (accepted py lib provider limits made.progress ≡ some c)
  unfolding accepted
  accepted-Succeeded (c, (f, q)) = (c, rw (f, q) refl)

  -- If one of the attempts that the retry limit allows returns a candidate that passes the
  -- validation, whatever the attempts before it do, then `create` returns a brief for a new key.
  pub create-succeeds :
      (k : ℕ)
      → k ≤ limits.max_retries
      → Yields py lib provider
          (ready_citations py retrieve req s g)
          g.claim.policy_edition
          (generation_request py lib provider limits req g.claim
            (ready_citations py retrieve req s g))
          k
      → (v : ClaimEvidenceBriefView) × (s' : Session) × (create py lib provider limits retrieve env
            req s
          ≡ (ok v, s'))
  unfolding prepared
  create-succeeds k le y =
      let zero_add : k ≡ 0 + k = omega arith in
      let d = ready_citations py retrieve req s g in
      let request = generation_request py lib provider limits req g.claim d in
      let done =
        attempts-Succeeded py lib provider d g.claim.policy_edition request k
          (limits.max_retries + 1) 0 not_started (omega (arith, le))
          (subst (Yields py lib provider d g.claim.policy_edition request) zero_add y) in
      let (c, e) = accepted-Succeeded done in
      let (w, t, q, grounded) = create-accepted py lib provider limits retrieve env req s g c e in
      (w, t, q)
