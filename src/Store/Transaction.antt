-- ===== src/Store/Transaction.antt =====
-- The database as its tables, and a SQLAlchemy session over it: the rows that the transaction sees
-- and those that were last committed. Inserted rows are appended. The factory of
-- infrastructure/database.py turns autoflush off; the services flush before each query that reads
-- what they have added, so an added row is seen at once here.
use aegisclaims_ai.Prelude.{ℕ, List}
use aegisclaims_ai.Prelude.Exec.{Exec, modify}
use aegisclaims_ai.Store.Rows.{
  User, UserSession, Claim, ClaimAssignment, Document, DocumentPage, DocumentFact, FactConflict,
  ProcessingEvent, RetrievalChunk, DocumentIndex, AuditEvent,
}
use aegisclaims_ai.Store.WorkflowRows.{
  WorkflowRun, ReviewTask, WorkflowCheckpoint, WorkflowEvent, ArtifactRow, ReviewActionRow,
}
use aegisclaims_ai.Store.BriefRows.{ModelInvocation, ClaimEvidenceBrief, OidcLoginTransaction}

pub record Db : Type 0 where
  pub users : List User
  pub user_sessions : List UserSession
  pub claims : List Claim
  pub assignments : List ClaimAssignment
  pub documents : List Document
  pub pages : List DocumentPage
  pub facts : List DocumentFact
  pub fact_conflicts : List FactConflict
  pub processing_events : List ProcessingEvent
  pub indexes : List DocumentIndex
  pub chunks : List RetrievalChunk
  pub runs : List WorkflowRun
  pub review_tasks : List ReviewTask
  pub checkpoints : List WorkflowCheckpoint
  pub events : List WorkflowEvent
  pub artifacts : List ArtifactRow
  pub review_actions : List ReviewActionRow
  pub audits : List AuditEvent
  pub invocations : List ModelInvocation
  pub briefs : List ClaimEvidenceBrief
  pub oidc_transactions : List OidcLoginTransaction

pub record Session : Type 0 where
  pub db : Db
  pub saved : Db

-- `session.commit()` and `session.rollback()`
abbrev pub commit : {E : Type 0} → Exec E Session (Unit {0})
commit = modify (λ s. record s { saved = s.db })

abbrev pub rollback : {E : Type 0} → Exec E Session (Unit {0})
rollback = modify (λ s. record s { db = s.saved })

-- A write to the tables within the transaction.
abbrev pub write : {E : Type 0} → (Db → Db) → Exec E Session (Unit {0})
write f = modify (λ s. record s { db = f s.db })

-- What the process reads from outside in one request: the clock, and the fresh UUIDs it draws.
pub record Env : Type 0 where
  pub now : ℕ
  pub fresh : ℕ
