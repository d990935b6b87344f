-- ===== src/Workflow/Graph/Outcome.antt =====
-- What a run of the graph ends in.
use mathlib.Core.Path.{subst}
use aegisclaims_ai.Prelude.{
  Bool, Bool-cases, List, String, [], any, ap, arith, false, if◌then◌else◌, inl, inr, is_empty, map,
  not, refl, some, sym, true, ℕ, ◌&&◌, ◌==◌, ◌↔◌, ◌∙◌, ◌∷◌, ◌≡◌, ◌≢◌,
}
use aegisclaims_ai.Domain.{WorkflowStatus}
use aegisclaims_ai.Prelude.Python.{Python}
use aegisclaims_ai.Retrieval.Types.{AnswerState, GroundedExecution, RetrievedEvidence}
use aegisclaims_ai.Store.{ApprovalState, Citation, FactConflict, Stage, WorkflowState}
use aegisclaims_ai.Workflow.Graph.{
  append_if, citation_dict, determine_review, is_failed, prepare_artifact, review_reasons,
  status_is_conflicting, status_is_insufficient, status_of_answer, validate_provenance,
  with_evidence,
}

-- The state after the last node, from the state in which the evidence was retrieved.
abbrev pub finish : WorkflowState → WorkflowState
finish s = prepare_artifact (determine_review (validate_provenance s))

own_claim :
    (py : Python) (claim : ℕ) (items : List RetrievedEvidence)
    → any
        (λ (c : Citation). not (c.claim_id == claim))
        (map (λ item. citation_dict py item claim) items)
      ≡ false
unfolding citation_dict
own_claim py claim [] = refl
own_claim py claim (x ∷ xs) = ground (arith, own_claim py claim xs)

-- The citations that `_retrieve_evidence` builds are stamped with the claim of the state.
pub validate_provenance-with_evidence :
    (py : Python) (result : GroundedExecution) (rows : List FactConflict) (s : WorkflowState)
    → validate_provenance (with_evidence py result rows s)
      ≡ record (with_evidence py result rows s) {
        current_stage = Stage.determining_review_requirements;
      }
unfolding validate_provenance with_evidence
validate_provenance-with_evidence py result rows s =
    rw (own_claim py s.claim_id result.retrieval.evidence)

-- A citation of the state is of another claim.
pub data HasForeign (claim : ℕ) : List Citation → Type 0 where
  this_foreign :
      (c : Citation) (cs : List Citation) → c.claim_id ≢ claim → HasForeign claim (c ∷ cs)
  later_foreign :
      (c : Citation) (cs : List Citation) → HasForeign claim cs → HasForeign claim (c ∷ cs)

abbrev is_foreign : ℕ → Citation → Bool
is_foreign claim c = not (c.claim_id == claim)

-- The state of a run whose provenance was refused.
abbrev pub scope_refused : WorkflowState → WorkflowState
scope_refused s = record s {
  current_stage = Stage.failed;
  status = WorkflowStatus.failed;
  error_code = some "citation_scope_invalid";
  error_detail = some "Citation provenance did not match the authorized claim.";
}

-- One of the grounds on which a state has to go to a human reviewer.
pub data NeedsReview (s : WorkflowState) : Type 0 where
  insufficient : s.status ≡ WorkflowStatus.insufficient_evidence → NeedsReview s
  missing : s.missing_information ≢ [] → NeedsReview s
  conflicting : s.conflicts ≢ [] → s.status ≡ WorkflowStatus.conflicting_evidence → NeedsReview s
  ambiguous : s.ambiguities ≢ [] → NeedsReview s
  untrusted : s.prompt_injection_indicators ≢ [] → NeedsReview s
  mandated : s.human_review_required ≡ true → NeedsReview s

module _ {ℓ} {A : Type ℓ} where
  ne_nil : (xs : List A) → is_empty xs ≡ false → xs ≢ []
  ne_nil xs h e = cc (ap is_empty e)

  not_empty : (xs : List A) → xs ≢ [] → is_empty xs ≡ false
  not_empty [] h = absurd (h refl)
  not_empty (x ∷ xs) h = refl

is_empty-append_if :
    (test : Bool) (r : String) (rs : List String)
    → is_empty (append_if test r rs) ≡ (not test && is_empty rs)
is_empty-append_if false r rs = refl
is_empty-append_if true r [] = refl
is_empty-append_if true r (x ∷ rs) = refl

status_insufficient :
    (st : WorkflowStatus)
    → status_is_insufficient st ≡ true
    → st ≡ WorkflowStatus.insufficient_evidence
status_insufficient WorkflowStatus.insufficient_evidence h = refl
status_insufficient _ h = cc

status_conflicting :
    (st : WorkflowStatus)
    → status_is_conflicting st ≡ true
    → st ≡ WorkflowStatus.conflicting_evidence
status_conflicting WorkflowStatus.conflicting_evidence h = refl
status_conflicting _ h = cc

reasons-NeedsReview : (s : WorkflowState) → is_empty (review_reasons s) ≡ false → NeedsReview s
unfolding review_reasons
reasons-NeedsReview s h = elim (Bool-cases s.human_review_required) [
  | inl e ↦ mandated e
  | inr e₁ ↦ elim (Bool-cases (is_empty s.prompt_injection_indicators)) [
    | inr e ↦ untrusted (ne_nil _ e)
    | inl e₂ ↦ elim (Bool-cases (is_empty s.ambiguities)) [
      | inr e ↦ ambiguous (ne_nil _ e)
      | inl e₃ ↦ elim (Bool-cases (is_empty s.missing_information)) [
        | inr e ↦ missing (ne_nil _ e)
        | inl e₄ ↦ elim (Bool-cases (status_is_insufficient s.status)) [
          | inl e ↦ insufficient (status_insufficient s.status e)
          | inr e₅ ↦
              conflicting (ne_nil s.conflicts (ground arith))
                (status_conflicting s.status (ground arith))
        ]
      ]
    ]
  ]
]

NeedsReview-reasons : (s : WorkflowState) → NeedsReview s → is_empty (review_reasons s) ≡ false
unfolding review_reasons
NeedsReview-reasons s (insufficient e) = rw e (simp is_empty-append_if (ground arith))
NeedsReview-reasons s (missing n) =
    simp is_empty-append_if (ground (arith, not_empty s.missing_information n))
NeedsReview-reasons s (conflicting n e) =
    rw e (simp is_empty-append_if (ground (arith, not_empty s.conflicts n)))
NeedsReview-reasons s (ambiguous n) =
    simp is_empty-append_if (ground (arith, not_empty s.ambiguities n))
NeedsReview-reasons s (untrusted n) =
    simp is_empty-append_if (ground (arith, not_empty s.prompt_injection_indicators n))
NeedsReview-reasons s (mandated e) = simp is_empty-append_if (ground arith)

-- The status, the stage and the approval state of a run that waits for its review, or of one that
-- is complete.
abbrev pub EndsIn : WorkflowState → Bool → Type 0
EndsIn t true =
    (t.status ≡ WorkflowStatus.awaiting_human_review)
    × (t.current_stage ≡ Stage.awaiting_human_review)
    × (t.approval_state ≡ ApprovalState.pending)
EndsIn t false =
    (t.status ≡ WorkflowStatus.completed)
    × (t.current_stage ≡ Stage.completed)
    × (t.approval_state ≡ ApprovalState.not_required)

determine_review-requires :
    (t : WorkflowState)
    → is_failed t.status ≡ false
    → ((determine_review t).human_review_required ≡ not (is_empty (review_reasons t)))
      × ((determine_review t).approval_state ≡ (
          if not (is_empty (review_reasons t))
          then ApprovalState.pending
          else ApprovalState.not_required))
      × ((determine_review t).status ≡ t.status)
unfolding determine_review
determine_review-requires t h = rw h (refl, refl, refl)

prepare_artifact-EndsIn :
    (u : WorkflowState) (required : Bool)
    → is_failed u.status ≡ false
    → u.human_review_required ≡ required
    → u.approval_state ≡ (if required then ApprovalState.pending else ApprovalState.not_required)
    → ((prepare_artifact u).human_review_required ≡ required) × EndsIn (prepare_artifact u) required
unfolding prepare_artifact
prepare_artifact-EndsIn u true h e a = rw (h, e) (refl, (refl, refl, a))
prepare_artifact-EndsIn u false h e a = rw (h, e) (refl, (refl, refl, a))

answered : (a : AnswerState) → is_failed (status_of_answer a) ≡ false
answered AnswerState.answerable = refl
answered AnswerState.insufficient_evidence = refl
answered AnswerState.conflicting_evidence = refl
answered AnswerState.ambiguous_evidence = refl

not-true : (b : Bool) → not b ≡ true → b ≡ false
not-true false h = refl
not-true true h = cc

module _ (py : Python) (result : GroundedExecution) (rows : List FactConflict)
    (s : WorkflowState) where
  abbrev pub gathered : WorkflowState
  gathered = with_evidence py result rows s

  gathered_status : is_failed gathered.status ≡ false
  unfolding with_evidence
  gathered_status = answered result.state

  same_reasons :
      review_reasons (record gathered { current_stage = Stage.determining_review_requirements })
      ≡ review_reasons gathered
  unfolding review_reasons
  same_reasons = refl

  finish_lem :
      (required : Bool)
      → not (is_empty (review_reasons gathered)) ≡ required
      → ((finish gathered).human_review_required ≡ required) × EndsIn (finish gathered) required
  finish_lem required e = rw validate_provenance-with_evidence (
      let t = record gathered { current_stage = Stage.determining_review_requirements } in
      let d = determine_review-requires t gathered_status in
      let e' : not (is_empty (review_reasons t)) ≡ required =
        ap (λ rs. not (is_empty rs)) same_reasons ∙ e in
      prepare_artifact-EndsIn (determine_review t) required (ap is_failed d.2 ∙ gathered_status)
        (d.0 ∙ e')
        (d.1 ∙ ap (λ b. if b then ApprovalState.pending else ApprovalState.not_required) e'))

  -- A run that has its evidence asks for a human review exactly on the grounds of `NeedsReview`.
  -- Its last node leaves the status, the stage and the approval state of a pending review if it
  -- does, and of a completed workflow if it does not.
  pub finish_outcome :
      (((finish gathered).human_review_required ≡ true) ↔ NeedsReview gathered)
      × EndsIn (finish gathered) (finish gathered).human_review_required
  finish_outcome =
      let (e, ends) = finish_lem (not (is_empty (review_reasons gathered))) refl in
      (
        (
          λ h. reasons-NeedsReview gathered (not-true _ (sym e ∙ h)),
          λ n. e ∙ ap not (NeedsReview-reasons gathered n),
        ),
        subst (EndsIn (finish gathered)) (sym e) ends,
      )
