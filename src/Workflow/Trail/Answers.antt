-- ===== src/Workflow/Trail/Answers.antt =====
-- What answering a question does to the workflows.
use mathlib.Core.Path.{subst}
use aegisclaims_ai.Prelude.{List, String, refl, sym, ℕ, ◌≡◌}
use aegisclaims_ai.Domain.{Actor}
use aegisclaims_ai.Prelude.Exec.{continue-session}
use aegisclaims_ai.Prelude.Python.{Python}
use aegisclaims_ai.Retrieval.Answering.{Retrieve, answer}
use aegisclaims_ai.Store.{Session}
use aegisclaims_ai.Workflow.Trail.Loop.{KeepsWorkflows, SameWorkflows}

pub record RetrieveKeeps (retrieve : Retrieve) : Type 0 where
  pub keeps :
      (claim : ℕ) (actor : Actor) (question : String) (limit : ℕ) (s : Session)
      → SameWorkflows (retrieve claim actor question limit s).1 s

answer_session :
    (py : Python) (extract : String → List String → String) (retrieve : Retrieve) (claim : ℕ)
    (actor : Actor) (question : String) (limit : ℕ) (s : Session)
    → (answer py extract retrieve claim actor question limit s).1
      ≡ (retrieve claim actor question limit s).1
unfolding answer
answer_session py extract retrieve claim actor question limit s =
    continue-session (retrieve claim actor question limit s) _ (λ _ _. refl)

-- Answers keep the rows of workflows, their events and their checkpoints, and commit nothing, when
-- the retrieval that they rest on does so.
pub answer-KeepsWorkflows :
    (py : Python) (extract : String → List String → String) (retrieve : Retrieve)
    → RetrieveKeeps retrieve
    → KeepsWorkflows (answer py extract retrieve)
answer-KeepsWorkflows py extract retrieve k = record {
  keeps = λ claim actor question limit s.
      subst (λ (r : Session). SameWorkflows r s)
        (sym (answer_session py extract retrieve claim actor question limit s))
        (k.keeps claim actor question limit s);
}
