-- ===== src/ModelAssistance/Creation/Outcome.antt =====
-- How `create` ends for a key that the claim has not used, when the claim is visible and the
-- retrieval answers.
use aegisclaims_ai.Prelude.{
  All, Bool-cases, List, [], any_contains, ap, false, find, inl, inr, is_empty, none, refl, some,
  some≢none, sym, true, ◌++◌, ◌+◌, ◌∙◌, ◌∷◌, ◌≡◌,
}
use aegisclaims_ai.ModelAssistance.Creation.{
  Prepared, accepted, after_retrieval, brief_row, create, create_new, generation_request,
  invocation, prepared, settle,
}
use aegisclaims_ai.ModelAssistance.Creation.Settled.{
  accepted_db, asks_review, new_brief, rejected_db, settle-accepted, settle-rejected,
}
use aegisclaims_ai.ModelAssistance.Generation.{Progress, not_started}
use aegisclaims_ai.ModelAssistance.Generation.Attempts.{attempts-IsSound}
use aegisclaims_ai.ModelAssistance.Service.{
  BriefEnv, BriefLimits, BriefRequest, ClaimEvidenceBriefView, audit, cite, generation_rejected,
  used_key, view_of,
}
use aegisclaims_ai.ModelAssistance.Service.Cited.{IsCitedFrom, Known, cite-IsCitedFrom, cite-total}
use aegisclaims_ai.ModelAssistance.Types.{BriefCandidate, ModelLibrary, ModelProvider}
use aegisclaims_ai.ModelAssistance.Validation.{
  Citations, add_citations, join_words, prohibited_phrases,
}
use aegisclaims_ai.ModelAssistance.Validation.Grounded.{
  All-self, IsValid, add_citations-All, validate-IsValid,
}
use aegisclaims_ai.Prelude.Exec.{Result, err, ok}
use aegisclaims_ai.Prelude.Python.{Python}
use aegisclaims_ai.Retrieval.Answering.{Retrieve, needs_review}
use aegisclaims_ai.Retrieval.Types.{RetrievalExecution}
use aegisclaims_ai.Store.{AuditEvent, Citation, Claim, ClaimEvidenceBrief, ModelInvocation, Session}
use aegisclaims_ai.Store.Claims.{get_for_actor, review_status}
use mathlib.Core.List.{Mem}

pub err-injective : {E A : Type 0} (a b : E) → (let x : Result E A = err a in x ≡ err b) → a ≡ b
err-injective a b h = cc

-- The outcome of the part before the attempts.
pub record Ready (retrieve : Retrieve) (req : BriefRequest) (s : Session) : Type 0 where
  pub claim : Claim
  pub found : get_for_actor s.db req.claim_id req.actor ≡ some claim
  pub unused :
      find (used_key req.actor.tenant_id req.claim_id req.idempotency_key) s.db.briefs ≡ none
  pub retrieval : RetrievalExecution
  pub after : Session
  pub retrieved : retrieve req.claim_id req.actor req.task 5 s ≡ (ok retrieval, after)

abbrev pub ready_citations :
    (py : Python) (retrieve : Retrieve) (req : BriefRequest) (s : Session)
    → Ready retrieve req s
    → Citations
ready_citations py retrieve req s g = add_citations py g.retrieval.evidence []

-- A brief was added and committed. It cites retrieved passages only, none of them of another policy
-- edition; its text has no prohibited phrase; it asks for a human review where one is under way.
pub record IsGroundedBrief (py : Python) (retrieve : Retrieve) (req : BriefRequest) (s : Session)
    (g : Ready retrieve req s) (v : ClaimEvidenceBriefView) (s' : Session) : Type 0 where
  pub brief : ClaimEvidenceBrief
  pub added : s'.saved.briefs ≡ g.after.db.briefs ++ brief ∷ []
  pub committed : s'.db ≡ s'.saved
  pub shown : v.content ≡ brief.content
  pub cited :
      All
        (IsCitedFrom py req.claim_id g.claim.policy_edition g.retrieval.evidence)
        brief.content.citations
  pub permitted :
      let c = brief.content in
      any_contains prohibited_phrases
        (py.lower (join_words (c.claim_summary ∷ c.evidence_summary ∷ c.limitations)))
      ≡ false
  pub reviewed :
      needs_review (review_status g.after.db req.claim_id req.actor) ≡ true
      → brief.content.human_review_required ≡ true

-- No brief was added; one invocation and one audit row say that the output was rejected, and they
-- are committed.
pub record IsRejected (retrieve : Retrieve) (req : BriefRequest) (s : Session)
    (g : Ready retrieve req s) (s' : Session) : Type 0 where
  pub invocation_row : ModelInvocation
  pub audit_row : AuditEvent
  pub briefs : s'.saved.briefs ≡ g.after.db.briefs
  pub invocations : s'.saved.invocations ≡ g.after.db.invocations ++ invocation_row ∷ []
  pub outcome : invocation_row.outcome ≡ "rejected"
  pub audits : s'.saved.audits ≡ g.after.db.audits ++ audit_row ∷ []
  pub action : audit_row.action ≡ "model.brief.rejected"
  pub committed : s'.db ≡ s'.saved

module _ (py : Python) (lib : ModelLibrary) (provider : ModelProvider) (limits : BriefLimits)
    (retrieve : Retrieve) (env : BriefEnv) (req : BriefRequest) (s : Session)
    (g : Ready retrieve req s) where
  abbrev pub result_of_attempts : Prepared
  result_of_attempts =
      prepared py lib provider limits g.after.db req g.claim (ready_citations py retrieve req s g)

  pub create-settle :
      create py lib provider limits retrieve env req s
      ≡ settle py lib provider limits env req result_of_attempts g.after
  unfolding create create_new
  create-settle =
      let start : create py lib provider limits retrieve env req s
          ≡ create_new py lib provider limits retrieve env req g.claim s =
        rw (g.found, create, g.unused) refl in
      start ∙ ap (after_retrieval py lib provider limits env req g.claim) g.retrieved

  pub accepted_cases :
      (p : Progress) (c : BriefCandidate)
      → accepted py lib provider limits p ≡ some c
      → (is_empty p.failures ≡ true) × (p.candidate ≡ some c)
  unfolding accepted
  accepted_cases p c h = elim (Bool-cases (is_empty p.failures)) [
    | inl e ↦ (e, rw e at h)
    | inr e ↦ absurd (some≢none (sym (rw e at h)))
  ]

  -- An accepted candidate has passed the validation.
  pub accepted-IsValid :
      (c : BriefCandidate)
      → accepted py lib provider limits result_of_attempts.progress ≡ some c
      → IsValid py c (ready_citations py retrieve req s g) g.claim.policy_edition
  unfolding prepared
  accepted-IsValid c h =
      let d = ready_citations py retrieve req s g in
      let request = generation_request py lib provider limits req g.claim d in
      let e = accepted_cases result_of_attempts.progress c h in
      validate-IsValid py c d g.claim.policy_edition (
        attempts-IsSound py lib provider d g.claim.policy_edition request (limits.max_retries + 1) 0
          not_started (λ x f q. absurd (some≢none (sym q))) c e.0 e.1)

  pub citations-Known :
      Known py req.claim_id g.claim.policy_edition g.retrieval.evidence
        (ready_citations py retrieve req s g)
  citations-Known =
      add_citations-All (λ e. Mem e g.retrieval.evidence) py g.retrieval.evidence []
        (All-self g.retrieval.evidence) tt

  pub asks_review-reviewed :
      (c : BriefCandidate)
      → needs_review (review_status g.after.db req.claim_id req.actor) ≡ true
      → asks_review py lib provider limits env req result_of_attempts c g.after ≡ true
  unfolding review_status
  asks_review-reviewed c h =
      rw h (elim (Bool-cases c.human_review_required) [ inl e ↦ rw e refl | inr e ↦ rw e refl ])

  abbrev pub after_acceptance : BriefCandidate → List Citation → Session
  after_acceptance c cited =
      let db = accepted_db py lib provider limits env req result_of_attempts c cited g.after in
      record { db = db; saved = db }

  abbrev pub accepted_view :
      BriefCandidate → List Citation → ModelInvocation → ClaimEvidenceBriefView
  accepted_view c cited i =
      view_of py (after_acceptance c cited).db req.actor
        (new_brief py lib provider limits env req result_of_attempts c cited g.after) i

  pub accepted_view-IsGroundedBrief :
      (c : BriefCandidate) (cited : List Citation) (i : ModelInvocation)
      → accepted py lib provider limits result_of_attempts.progress ≡ some c
      → cite py req.claim_id (ready_citations py retrieve req s g) c.citation_handles ≡ some cited
      → IsGroundedBrief py retrieve req s g (accepted_view c cited i) (after_acceptance c cited)
  unfolding audit brief_row view_of
  accepted_view-IsGroundedBrief c cited i e f =
      let valid = accepted-IsValid c e in
      record {
        brief = new_brief py lib provider limits env req result_of_attempts c cited g.after;
        added = refl;
        committed = refl;
        shown = refl;
        cited =
            cite-IsCitedFrom py req.claim_id g.claim.policy_edition g.retrieval.evidence
              (ready_citations py retrieve req s g) c.citation_handles cited citations-Known
              valid.applicable f;
        permitted = valid.permitted;
        reviewed = asks_review-reviewed c;
      }

  -- An accepted candidate becomes a brief.
  pub create-accepted :
      (c : BriefCandidate)
      → accepted py lib provider limits result_of_attempts.progress ≡ some c
      → (v : ClaimEvidenceBriefView) × (s' : Session) × (create py lib provider limits retrieve env
            req s
          ≡ (ok v, s'))
        × IsGroundedBrief py retrieve req s g v s'
  unfolding prepared
  create-accepted c e =
      let (cited, f) =
        cite-total py req.claim_id (ready_citations py retrieve req s g) c.citation_handles
          (accepted-IsValid c e).authorized in
      let (i, q) =
        settle-accepted py lib provider limits env req result_of_attempts g.after c cited e f in
      (
        accepted_view c cited i,
        after_acceptance c cited,
        create-settle ∙ q,
        accepted_view-IsGroundedBrief c cited i e f,
      )

  abbrev pub after_rejection : Session
  after_rejection =
      let db = rejected_db py lib provider limits env req result_of_attempts g.after in
      record { db = db; saved = db }

  pub after_rejection-IsRejected :
      accepted py lib provider limits result_of_attempts.progress ≡ none
      → IsRejected retrieve req s g after_rejection
  unfolding audit invocation
  after_rejection-IsRejected e = record {
    invocation_row = invocation py lib provider limits env req result_of_attempts;
    audit_row = record {
      tenant_id = req.actor.tenant_id;
      actor_user_id = some req.actor.user_id;
      action = "model.brief.rejected";
      resource_type = "model_invocation";
      resource_id = env.invocation_id;
      outcome = (invocation py lib provider limits env req result_of_attempts).outcome;
      correlation_id = req.correlation_id;
    };
    briefs = refl;
    invocations = refl;
    outcome = rw e refl;
    audits = refl;
    action = refl;
    committed = refl;
  }

  pub create-rejected :
      accepted py lib provider limits result_of_attempts.progress ≡ none
      → create py lib provider limits retrieve env req s
        ≡ (err generation_rejected, after_rejection)
  create-rejected e =
      create-settle ∙ settle-rejected py lib provider limits env req result_of_attempts g.after e
