-- ===== src/Domain/Enums.antt =====
-- domain/enums.py. The values of each `StrEnum` are constructors.
-- (`open` is spelled `open_task`, since it is a reserved word.)

pub data RoleName : Type 0 where
  claims_adjuster supervisor compliance_reviewer admin : RoleName

pub data Action : Type 0 where
  dashboard_read claim_read document_read document_upload retrieval_query : Action
  review_queue_read operations_read system_job_create : Action
  workflow_start workflow_read workflow_review workflow_retry workflow_cancel : Action
  brief_create brief_read : Action

-- The values of `WorkflowStatus`, and after them the four answer states which the workflow
-- engine also writes to the column `status`.
pub data WorkflowStatus : Type 0 where
  not_started pending running human_review completed failed created : WorkflowStatus
  gathering_evidence evaluating_evidence determining_review_requirements : WorkflowStatus
  awaiting_human_review awaiting_additional_information cancelled : WorkflowStatus
  answerable insufficient_evidence conflicting_evidence ambiguous_evidence : WorkflowStatus

pub data ReviewStatus : Type 0 where
  open_task assigned completed cancelled : ReviewStatus

pub data DocumentStatus : Type 0 where
  uploaded validating stored extracting classifying normalizing ready failed rejected :
      DocumentStatus
