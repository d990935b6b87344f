-- ===== src/Retrieval/Answering/Decision.antt =====
-- When a question is answered from the evidence.
use aegisclaims_ai.Prelude.{
  &&-true, All, Bool, Bool-cases, List, Option, String, [], all, any_contains, ap, arith, contains,
  eq_iff, false, if◌then◌else◌, inl, inr, is_empty, not, refl, str_eq, sym, true, ◌&&◌, ◌||◌, ◌↔◌,
  ◌∙◌, ◌∷◌, ◌≡◌, ◌≢◌, ◌⊎◌,
}
use aegisclaims_ai.Documents.Ingestion.{extract}
use aegisclaims_ai.Domain.{ReviewStatus}
use aegisclaims_ai.Prelude.Python.{Python}
use aegisclaims_ai.Retrieval.Answering.{
  ambiguity_indicators, answer_state, generate, grounded, is_conflicting, is_unsupported,
  missing_information, passages,
}
use aegisclaims_ai.Retrieval.Types.{AnswerState, RetrievalExecution, RetrievedEvidence}
use aegisclaims_ai.Store.{FactConflict}

or_false : (a b : Bool) → (a || b) ≡ false → (a ≡ false) × (b ≡ false)
or_false a b h = ground arith

-- None of the terms is in the text.
abbrev pub Lacks : List String → String → Type 0
Lacks terms text = All (λ (t : String). contains t text ≡ false) terms

-- What an answerable question has, read off the question, the text of the evidence (both in lower
-- case) and the conflicts of the claim: evidence, an estimate amount and an inspection where the
-- question names them, no unresolved allocation of the cause, no disclaimer where a cause is asked
-- for, and no conflict, unless the question names nothing that conflicts bear on or asks which
-- policy edition governs and only editions conflict.
pub record IsAnswerable (question text : String) (evidence : List RetrievedEvidence)
    (rows : List FactConflict) : Type 0 where
  pub found : evidence ≢ []
  pub estimate : (contains "estimate" question ≡ false) ⊎ (contains "estimate amount" text ≡ true)
  pub inspection : (contains "inspection" question ≡ false) ⊎ (contains "inspection" text ≡ true)
  pub unambiguous : contains "cause allocation is unresolved" text ≡ false
  pub supported :
      Lacks ("cause" ∷ "caused" ∷ "why" ∷ []) question
      ⊎ (contains "no date, inspection" text ≡ false)
  pub consistent :
      (rows ≡ [])
      ⊎ (Lacks ("date" ∷ "address" ∷ "policy" ∷ "reported" ∷ []) question
          ⊎ ((contains "govern" question ≡ true)
              × All (λ (c : FactConflict). c.fact_type ≡ "policy_edition") rows))

any_contains_iff :
    (terms : List String) (text : String) → (any_contains terms text ≡ false) ↔ Lacks terms text
unfolding any_contains
any_contains_iff [] text = (λ h. tt, λ h. refl)
any_contains_iff (t ∷ ts) text = (
  λ h.
      let both = or_false (contains t text) (any_contains ts text) h in
      (both.0, (any_contains_iff ts text).0 both.1),
  λ h. rw h.0 ((any_contains_iff ts text).1 h.1),
)

only_editions_iff :
    (rows : List FactConflict)
    → (all (λ (c : FactConflict). str_eq c.fact_type "policy_edition") rows ≡ true)
      ↔ All (λ (c : FactConflict). c.fact_type ≡ "policy_edition") rows
only_editions_iff [] = (λ h. tt, λ h. refl)
only_editions_iff (c ∷ cs) = (
  λ h.
      let both = &&-true (str_eq c.fact_type "policy_edition") _ h in
      ((eq_iff c.fact_type "policy_edition").0 both.0, (only_editions_iff cs).0 both.1),
  λ h. rw ((eq_iff c.fact_type "policy_edition").1 h.0) ((only_editions_iff cs).1 h.1),
)

-- A named thing is missing unless the text has it.
unnamed_iff : (named had : Bool) → (named && not had ≡ false) ↔ ((named ≡ false) ⊎ (had ≡ true))
unnamed_iff false had = (λ h. inl refl, λ h. refl)
unnamed_iff true true = (λ h. inr refl, λ h. refl)
unnamed_iff true false = (λ h. cc, λ h. elim h [ inl e ↦ cc | inr e ↦ cc ])

and_false_iff : (a b : Bool) → ((a && b) ≡ false) ↔ ((a ≡ false) ⊎ (b ≡ false))
and_false_iff false b = (λ h. inl refl, λ h. refl)
and_false_iff true b = (λ h. inr h, λ h. elim h [ inl e ↦ cc | inr e ↦ e ])

nothing_listed_iff :
    (e i : Bool)
    → (is_empty (
          let inspection : List String = if i then "inspection" ∷ [] else [] in
          if e then "estimate" ∷ inspection else inspection)
        ≡ true)
      ↔ ((e ≡ false) × (i ≡ false))
nothing_listed_iff false false = (λ h. (refl, refl), λ h. refl)
nothing_listed_iff false true = (λ h. cc, λ h. cc)
nothing_listed_iff true i = (λ h. cc, λ h. cc)

is_empty_iff : (rows : List FactConflict) → (not (is_empty rows) ≡ false) ↔ (rows ≡ [])
is_empty_iff [] = (λ h. refl, λ h. refl)
is_empty_iff (c ∷ cs) = (λ h. cc, λ h. cc (ap is_empty h))

missing_information_iff :
    (question text : String)
    → (is_empty (missing_information question text) ≡ true) ↔ (
        ((contains "estimate" question ≡ false) ⊎ (contains "estimate amount" text ≡ true))
        × ((contains "inspection" question ≡ false) ⊎ (contains "inspection" text ≡ true)))
unfolding missing_information
missing_information_iff question text =
    let estimate = unnamed_iff (contains "estimate" question) (contains "estimate amount" text) in
    let inspection = unnamed_iff (contains "inspection" question) (contains "inspection" text) in
    let listed = nothing_listed_iff _ _ in
    (
      λ h. let none_listed = listed.0 h in (estimate.0 none_listed.0, inspection.0 none_listed.1),
      λ h. listed.1 (estimate.1 h.0, inspection.1 h.1),
    )

is_unsupported_iff :
    (question text : String)
    → contains "cause allocation is unresolved" text ≡ false
    → (is_unsupported question text ≡ false) ↔ (
        Lacks ("cause" ∷ "caused" ∷ "why" ∷ []) question
        ⊎ (contains "no date, inspection" text ≡ false))
unfolding is_unsupported
is_unsupported_iff question text clear =
    let causal = any_contains_iff ("cause" ∷ "caused" ∷ "why" ∷ []) question in
    let disclaimed =
      any_contains_iff ("no date, inspection" ∷ "cause allocation is unresolved" ∷ []) text in
    let either =
      and_false_iff (any_contains ("cause" ∷ "caused" ∷ "why" ∷ []) question)
        (any_contains ("no date, inspection" ∷ "cause allocation is unresolved" ∷ []) text) in
    (
      λ h. elim (either.0 h) [ inl e ↦ inl (causal.0 e) | inr e ↦ inr (disclaimed.0 e).0 ],
      λ h.
          either.1
            (elim h [ inl e ↦ inl (causal.1 e) | inr e ↦ inr (disclaimed.1 (e, (clear, tt))) ]),
    )

is_conflicting_iff :
    (question : String) (rows : List FactConflict)
    → (is_conflicting question rows ≡ false) ↔ (
        (rows ≡ [])
        ⊎ (Lacks ("date" ∷ "address" ∷ "policy" ∷ "reported" ∷ []) question
            ⊎ ((contains "govern" question ≡ true)
                × All (λ (c : FactConflict). c.fact_type ≡ "policy_edition") rows)))
unfolding is_conflicting
is_conflicting_iff question rows =
    let terms = "date" ∷ "address" ∷ "policy" ∷ "reported" ∷ [] in
    let named = any_contains_iff terms question in
    let editions = all (λ (c : FactConflict). str_eq c.fact_type "policy_edition") rows in
    let bears = and_false_iff (not (is_empty rows)) (any_contains terms question) in
    let excused =
      unnamed_iff (not (is_empty rows) && any_contains terms question)
        (contains "govern" question && editions) in
    (
      λ h. elim (excused.0 h) [
        | inl away ↦ elim (bears.0 away) [
          | inl e ↦ inl ((is_empty_iff rows).0 e)
          | inr e ↦ inr (inl (named.0 e))
        ]
        | inr e ↦
            let both = &&-true (contains "govern" question) editions e in
            inr (inr (both.0, (only_editions_iff rows).0 both.1))
      ],
      λ h. excused.1 (elim h [
        | inl e ↦ inl (bears.1 (inl ((is_empty_iff rows).1 e)))
        | inr rest ↦ elim rest [
          | inl e ↦ inl (bears.1 (inr (named.1 e)))
          | inr both ↦ inr (rw (both.0, (only_editions_iff rows).1 both.1) refl)
        ]
      ]),
    )

ambiguous≢answerable : AnswerState.ambiguous_evidence ≡ AnswerState.answerable → ⊥
ambiguous≢answerable h = cc

pub insufficient≢answerable : AnswerState.insufficient_evidence ≡ AnswerState.answerable → ⊥
insufficient≢answerable h = cc

conflicting≢answerable : AnswerState.conflicting_evidence ≡ AnswerState.answerable → ⊥
conflicting≢answerable h = cc

not-true : (b : Bool) → not b ≡ true → b ≡ false
not-true false h = refl
not-true true h = cc

unambiguous_text :
    (text : String)
    → is_empty (ambiguity_indicators text) ≡ not (contains "cause allocation is unresolved" text)
unfolding ambiguity_indicators
unambiguous_text text = elim (Bool-cases (contains "cause allocation is unresolved" text)) [
  | inl e ↦ rw e refl
  | inr e ↦ rw e refl
]

not-false : (b : Bool) → not b ≡ false → b ≡ true
not-false true h = refl
not-false false h = cc

found_ne_nil : (xs : List RetrievedEvidence) → is_empty xs ≡ false → xs ≢ []
found_ne_nil xs h e = cc (ap is_empty e)

not_empty : (xs : List RetrievedEvidence) → xs ≢ [] → is_empty xs ≡ false
not_empty [] h = absurd (h refl)
not_empty (x ∷ xs) h = refl

answer_state-IsAnswerable :
    (question text : String) (evidence : List RetrievedEvidence) (rows : List FactConflict)
    → answer_state question text evidence rows ≡ AnswerState.answerable
    → IsAnswerable question text evidence rows
unfolding answer_state
answer_state-IsAnswerable question text evidence rows h =
    let unclear = not (is_empty (ambiguity_indicators text)) in
    let incomplete =
      not (is_empty (missing_information question text)) || is_unsupported question text in
    elim (Bool-cases unclear) [
      | inl e ↦ absurd (ambiguous≢answerable (rw e at h))
      | inr e ↦ elim (Bool-cases (is_empty evidence || incomplete)) [
        | inl f ↦ absurd (insufficient≢answerable (rw (e, f) at h))
        | inr f ↦ elim (Bool-cases (is_conflicting question rows)) [
          | inl g ↦ absurd (conflicting≢answerable (rw (e, f, g) at h))
          | inr g ↦
              let some_found = or_false (is_empty evidence) incomplete f in
              let whole =
                or_false (not (is_empty (missing_information question text)))
                  (is_unsupported question text) some_found.1 in
              let clear =
                not-true (contains "cause allocation is unresolved" text)
                  (sym (unambiguous_text text) ∙ not-false _ e) in
              let complete = (missing_information_iff question text).0 (not-false _ whole.0) in
              record {
                found = found_ne_nil evidence some_found.0;
                estimate = complete.0;
                inspection = complete.1;
                unambiguous = clear;
                supported = (is_unsupported_iff question text clear).0 whole.1;
                consistent = (is_conflicting_iff question rows).0 g;
              }
        ]
      ]
    ]

IsAnswerable-answer_state :
    (question text : String) (evidence : List RetrievedEvidence) (rows : List FactConflict)
    → IsAnswerable question text evidence rows
    → answer_state question text evidence rows ≡ AnswerState.answerable
unfolding answer_state
IsAnswerable-answer_state question text evidence rows a =
    let found = not_empty evidence a.found in
    let complete = (missing_information_iff question text).1 (a.estimate, a.inspection) in
    let supported = (is_unsupported_iff question text a.unambiguous).1 a.supported in
    let consistent = (is_conflicting_iff question rows).1 a.consistent in
    rw (unambiguous_text text, a.unambiguous, found, complete, supported, consistent) refl

-- A question is answered from the evidence exactly when there is some, it has the estimate amount
-- and the inspection that the question names, it leaves no allocation of the cause unresolved and
-- disclaims no cause that is asked for, and no conflict of the claim bears on the question: there is
-- none, or the question names no date, address, policy or report, or it asks what governs and only
-- policy editions conflict.
pub answer_state_iff :
    (question text : String) (evidence : List RetrievedEvidence) (rows : List FactConflict)
    → (answer_state question text evidence rows ≡ AnswerState.answerable)
      ↔ IsAnswerable question text evidence rows
answer_state_iff question text evidence rows = (
  answer_state-IsAnswerable question text evidence rows,
  IsAnswerable-answer_state question text evidence rows,
)

generate_refusal :
    (extract extract' : String → List String → String) (question : String)
    (texts texts' : List String) (state : AnswerState)
    → state ≢ AnswerState.answerable
    → generate extract question texts state ≡ generate extract' question texts' state
unfolding generate
generate_refusal extract extract' question texts texts' AnswerState.insufficient_evidence h = refl
generate_refusal extract extract' question texts texts' AnswerState.conflicting_evidence h = refl
generate_refusal extract extract' question texts texts' AnswerState.ambiguous_evidence h = refl
generate_refusal extract extract' question texts texts' AnswerState.answerable h = absurd (h refl)

-- Unless the state is answerable, the text of an answer says nothing of the evidence: two retrievals
-- with the same state, other than answerable, give the same text.
pub grounded_refusal :
    (py : Python) (extract : String → List String → String) (question : String)
    (r r' : RetrievalExecution) (rows rows' : List FactConflict) (status : Option ReviewStatus)
    → (grounded py extract question r rows status).state
      ≡ (grounded py extract question r' rows' status).state
    → (grounded py extract question r rows status).state ≢ AnswerState.answerable
    → (grounded py extract question r rows status).answer
      ≡ (grounded py extract question r' rows' status).answer
unfolding grounded
grounded_refusal py extract question r r' rows rows' status same h =
    generate_refusal extract extract question (passages r) (passages r') _ h
    ∙ ap (generate extract question (passages r')) same
