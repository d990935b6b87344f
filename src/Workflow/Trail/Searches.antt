-- ===== src/Workflow/Trail/Searches.antt =====
-- The workflow over the program's own retrieval.
use aegisclaims_ai.Prelude.{List, String, ap}
use aegisclaims_ai.Prelude.Python.{Python}
use aegisclaims_ai.Retrieval.Answering.{answer}
use aegisclaims_ai.Retrieval.Indexing.{Indexer}
use aegisclaims_ai.Retrieval.Search.{Scoring, retrieve}
use aegisclaims_ai.Retrieval.Search.Retrieved.{retrieve-IndexesOnly}
use aegisclaims_ai.Store.{Db}
use aegisclaims_ai.Workflow.Trail.Answers.{RetrieveKeeps, answer-KeepsWorkflows}
use aegisclaims_ai.Workflow.Trail.Loop.{KeepsWorkflows}

pub retrieve-RetrieveKeeps :
    {F : Type 0} (py : Python) (scoring : Scoring F) (ix : Indexer)
    → RetrieveKeeps (retrieve py scoring ix)
retrieve-RetrieveKeeps py scoring ix = record {
  keeps = λ claim actor question limit s.
      let only = retrieve-IndexesOnly py scoring ix claim actor question limit s in
      record {
        runs = ap (λ (d : Db). d.runs) only.tables;
        events = ap (λ (d : Db). d.events) only.tables;
        checkpoints = ap (λ (d : Db). d.checkpoints) only.tables;
        saved = only.saved;
      };
}

-- Answers from the program's own retrieval, which may index documents on the way, keep the rows of
-- workflows, their events and their checkpoints, and commit nothing, whether they succeed or raise.
pub answer_by_search-KeepsWorkflows :
    {F : Type 0} (py : Python) (extract : String → List String → String) (scoring : Scoring F)
    (ix : Indexer)
    → KeepsWorkflows (answer py extract (retrieve py scoring ix))
answer_by_search-KeepsWorkflows py extract scoring ix =
    answer-KeepsWorkflows py extract (retrieve py scoring ix) (retrieve-RetrieveKeeps py scoring ix)
