-- ===== src/Workflow/Fixtures.antt =====
-- Data for the runs: one tenant, one claim, and a workflow that awaits its review.
use Prim.Native.String.{count}
use aegisclaims_ai.Prelude.{[], arith, false, none, refl, some, true, ◌∷◌, ◌≡◌}
use aegisclaims_ai.Domain.{Actor, WorkflowStatus, admin, supervisor}
use aegisclaims_ai.Prelude.Exec.{ok}
use aegisclaims_ai.Prelude.Python.{Python}
use aegisclaims_ai.Retrieval.Indexing.{Indexer}
use aegisclaims_ai.Retrieval.Types.{Answer, AnswerState, GroundedExecution}
use aegisclaims_ai.Store.{Claim, Db, Env, Session, WorkflowRun, WorkflowState, workflow_created}
use aegisclaims_ai.Workflow.Service.{checkpoint_and_event, fingerprint, initial_state}
use aegisclaims_ai.Workflow.Service.Actions.{is_closed}
use aegisclaims_ai.Workflow.Service.Operations.{new_run}
use aegisclaims_ai.Workflow.Trail.{IsTracked}
use aegisclaims_ai.Workflow.Trail.Loop.{KeepsWorkflows}

-- Functions of the standard library that are easy to compute with.
abbrev pub plain : Python
plain = record { sha256 = λ s. s; lower = λ s. s; upper = λ s. s; strip = λ s. s }

abbrev pub supervisor_actor : Actor
supervisor_actor = record {
  user_id = 3;
  tenant_id = 1;
  subject = "s";
  display_name = "Sam";
  roles = supervisor ∷ [];
}

abbrev pub admin_actor : Actor
admin_actor = record supervisor_actor { roles = admin ∷ [] }

abbrev pub roof_claim : Claim
roof_claim = record {
  id = 7;
  tenant_id = 1;
  claim_number = "CLM-7";
  policy_edition = "2024";
  created_at = 10;
}

abbrev pub empty_db : Db
empty_db = record {
  users = [];
  user_sessions = [];
  claims = roof_claim ∷ [];
  assignments = [];
  documents = [];
  pages = [];
  facts = [];
  fact_conflicts = [];
  processing_events = [];
  indexes = [];
  chunks = [];
  runs = [];
  review_tasks = [];
  checkpoints = [];
  events = [];
  artifacts = [];
  review_actions = [];
  audits = [];
  invocations = [];
  briefs = [];
  oidc_transactions = [];
}

abbrev pub saved_session : Db → Session
saved_session db = record { db = db; saved = db }

abbrev pub clock : Env
clock = record { now = 20; fresh = 5 }

abbrev pub later_clock : Env
later_clock = record { now = 30; fresh = 6 }

-- An answer from one passage.
abbrev pub passage : GroundedExecution
passage = record {
  retrieval = record {
    claim = roof_claim;
    evidence =
        record {
          chunk = record {
            id = 1;
            index_id = 1;
            tenant_id = 1;
            claim_id = 7;
            document_id = 2;
            page_number = 1;
            chunk_identifier = "chunk-1";
            chunk_ordinal = 0;
            document_type = "estimate";
            policy_edition = none;
            source_checksum = "a";
            page_checksum = "b";
            normalized_text = "hail";
            source_start = 0;
            source_end = 4;
            embedding_version = "1";
            injection_risk = false;
            document_name = "estimate.txt";
          };
          rank = 1;
          applicability_status = "not_applicable";
        }
        ∷ [];
    candidate_count = 1;
  };
  state = AnswerState.answerable;
  answer = "hail";
  missing_information = [];
  ambiguity_indicators = [];
  human_review_required = true;
}

-- A retrieval that gives it and touches no table.
abbrev pub one_passage : Answer
one_passage claim actor question limit s = (ok passage, s)

pub one_passage-KeepsWorkflows : KeepsWorkflows one_passage
one_passage-KeepsWorkflows = record {
  keeps = λ _ _ _ _ s. record { runs = refl; events = refl; checkpoints = refl; saved = refl };
}

-- A workflow at its first checkpoint.
abbrev pub waiting_run : WorkflowStatus → WorkflowRun
unfolding new_run
waiting_run status = record (new_run clock supervisor_actor roof_claim "Why?" "key-1" "corr-1" "") {
  status = status;
  checkpoint_version = 1;
  input_fingerprint = some (fingerprint plain empty_db 7 supervisor_actor "Why?");
}

abbrev pub waiting_state : WorkflowState
waiting_state =
    initial_state empty_db (waiting_run WorkflowStatus.awaiting_human_review) supervisor_actor

abbrev pub waiting_db : WorkflowStatus → Db
waiting_db status =
    checkpoint_and_event (waiting_run status) waiting_state (some 3) workflow_created none
      (record empty_db { runs = waiting_run status ∷ [] })

pub waiting-IsTracked :
    (status : WorkflowStatus) → IsTracked (waiting_run status) (waiting_db status)
unfolding checkpoint_and_event new_run
waiting-IsTracked status = record {
  current = refl;
  trail = record {
    events_numbered = (λ _. refl, tt);
    events_counted = refl;
    checkpoints_numbered = (λ _. refl, tt);
    checkpoints_counted = refl;
  };
  retries = omega arith;
}

pub completed-closed : is_closed (waiting_run WorkflowStatus.completed).status ≡ true
unfolding new_run
completed-closed = refl

-- An indexer that makes no chunks.
abbrev pub plain_indexer : Indexer
plain_indexer = record {
  codes = λ s. [];
  of_codes = λ t. "";
  chunk_page = λ d checksum text. [];
  embed_error = λ texts. none;
  index_id = λ d. d;
  chunk_id = λ i c. count c;
}
