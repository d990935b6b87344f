-- ===== src/ModelAssistance/Creation/Settled.antt =====
-- The two ways in which `settle` ends, from an accepted candidate and without one.
use aegisclaims_ai.Prelude.{
  Bool, Bool-cases, List, [], arith, find, inl, inr, none, refl, some, true, ℕ, ◌++◌, ◌==◌, ◌||◌,
  ◌∙◌, ◌∷◌, ◌≡◌,
}
use aegisclaims_ai.Domain.{Actor}
use aegisclaims_ai.ModelAssistance.Creation.{
  Prepared, accept, accepted, brief_row, invocation, reject, settle,
}
use aegisclaims_ai.ModelAssistance.Service.{
  BriefEnv, BriefLimits, BriefRequest, add_brief, add_invocation, audit, cite, generation_rejected,
  view, view_of,
}
use aegisclaims_ai.ModelAssistance.Types.{BriefCandidate, ModelLibrary, ModelProvider}
use aegisclaims_ai.Prelude.Exec.{err, ok}
use aegisclaims_ai.Prelude.Python.{Python}
use aegisclaims_ai.Retrieval.Answering.{needs_review}
use aegisclaims_ai.Store.{Citation, ClaimEvidenceBrief, Db, ModelInvocation, Session}
use aegisclaims_ai.Store.Claims.{review_status}

-- `find` of a row that was just appended returns a row.
pub find-appended {ℓ} :
    {A : Type ℓ} (p : A → Bool) (xs : List A) (x : A)
    → p x ≡ true
    → (y : A) × (find p (xs ++ x ∷ []) ≡ some y)
find-appended p [] x h = (x, rw h refl)
find-appended p (z ∷ xs) x h = elim (Bool-cases (p z)) [
  | inl e ↦ (z, rw e refl)
  | inr e ↦ let (y, q) = find-appended p xs x h in (y, rw e q)
]

pub same_id : (n : ℕ) → (n == n) ≡ true
same_id n = ground arith

pub view-found :
    (py : Python) (actor : Actor) (b : ClaimEvidenceBrief) (i : ModelInvocation) (s : Session)
    → find (λ (x : ModelInvocation). x.id == b.invocation_id) s.db.invocations ≡ some i
    → view py actor b s ≡ (ok (view_of py s.db actor b i), s)
unfolding view
view-found py actor b i s e = rw (e, view) refl

module _ (py : Python) (lib : ModelLibrary) (provider : ModelProvider) (limits : BriefLimits)
    (env : BriefEnv) (req : BriefRequest) (p : Prepared) where
  -- The row of the invocation, in the tables that `settle` starts from.
  abbrev pub invoked : Session → Db
  invoked s = add_invocation (invocation py lib provider limits env req p) s.db

  abbrev pub rejected_db : Session → Db
  rejected_db s =
      audit (invocation py lib provider limits env req p) req.actor "model.brief.rejected"
        (invoked s)

  abbrev pub asks_review : BriefCandidate → Session → Bool
  asks_review c s =
      c.human_review_required || needs_review (review_status (invoked s) req.claim_id req.actor)

  abbrev pub new_brief : BriefCandidate → List Citation → Session → ClaimEvidenceBrief
  new_brief c cited s = brief_row py lib provider limits env req p c (asks_review c s) cited

  abbrev pub accepted_db : BriefCandidate → List Citation → Session → Db
  accepted_db c cited s =
      audit (invocation py lib provider limits env req p) req.actor "model.brief.created"
        (add_brief (new_brief c cited s) (invoked s))

  pub settle-rejected :
      (s : Session)
      → accepted py lib provider limits p.progress ≡ none
      → settle py lib provider limits env req p s
        ≡ (err generation_rejected, record { db = rejected_db s; saved = rejected_db s })
  unfolding settle reject
  settle-rejected s e = rw (e, settle) refl

  pub accept-cited :
      (inv : ModelInvocation) (c : BriefCandidate) (cited : List Citation) (s : Session)
      → cite py req.claim_id p.citations c.citation_handles ≡ some cited
      → let b : ClaimEvidenceBrief =
          brief_row py lib provider limits env req p c
            (c.human_review_required || needs_review (review_status s.db req.claim_id req.actor))
            cited in
        let db : Db = audit inv req.actor "model.brief.created" (add_brief b s.db) in
        accept py lib provider limits env req p inv c s
        ≡ view py req.actor b (record { db = db; saved = db })
  unfolding accept
  accept-cited inv c cited s f = rw (f, accept) refl

  pub settle-some :
      (s : Session) (c : BriefCandidate)
      → accepted py lib provider limits p.progress ≡ some c
      → settle py lib provider limits env req p s
        ≡ accept py lib provider limits env req p
            (invocation py lib provider limits env req p)
            c
            (record { db = invoked s; saved = s.saved })
  unfolding settle
  settle-some s c e = rw (e, settle) refl

  -- The view shows an invocation with the identifier of the brief's.
  pub settle-accepted :
      (s : Session) (c : BriefCandidate) (cited : List Citation)
      → accepted py lib provider limits p.progress ≡ some c
      → cite py req.claim_id p.citations c.citation_handles ≡ some cited
      → (i : ModelInvocation) × (settle py lib provider limits env req p s ≡ (
        ok (view_of py (accepted_db c cited s) req.actor (new_brief c cited s) i),
        record { db = accepted_db c cited s; saved = accepted_db c cited s },
      ))
  unfolding audit brief_row invocation
  settle-accepted s c cited e f =
      let inv = invocation py lib provider limits env req p in
      let (i, q) =
        find-appended (λ (x : ModelInvocation). x.id == env.invocation_id) s.db.invocations inv
          (same_id env.invocation_id) in
      let t : Session = record { db = accepted_db c cited s; saved = accepted_db c cited s } in
      (
        i,
        settle-some s c e
            ∙ (accept-cited inv c cited (record { db = invoked s; saved = s.saved }) f
                ∙ view-found py req.actor (new_brief c cited s) i t q),
      )
