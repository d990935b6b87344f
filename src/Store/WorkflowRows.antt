-- ===== src/Store/WorkflowRows.antt =====
-- workflows/state.py and the rows of workflows and reviews in infrastructure/models.py. What the code
-- keeps as JSON is a record.
use aegisclaims_ai.Prelude.{ℕ, String, Bool, Option, List}
use aegisclaims_ai.Domain.{WorkflowStatus, ReviewStatus}

-- The values of `current_stage`.
pub data Stage : Type 0 where
  created gathering_evidence evaluating_evidence provenance_validation_failed : Stage
  determining_review_requirements failed awaiting_human_review completed cancelled : Stage
  awaiting_additional_information : Stage

pub data ApprovalState : Type 0 where
  not_required pending acknowledged proposal_approved proposal_rejected : ApprovalState
  more_information_requested returned_for_evidence_review cancelled : ApprovalState

-- The dictionary that `citation_dict` builds; the three rounded scores are left out.
pub record Citation : Type 0 where
  pub id : String
  pub claim_id : ℕ
  pub document_id : ℕ
  pub document_name : String
  pub document_type : String
  pub page_number : ℕ
  pub chunk_identifier : String
  pub chunk_ordinal : ℕ
  pub source_start : ℕ
  pub source_end : ℕ
  pub source_checksum : String
  pub page_checksum : String
  pub excerpt : String
  pub policy_edition : Option String
  pub applicability_status : String
  pub injection_risk : Bool
  pub retrieval_rank : ℕ

pub record ConflictSummary : Type 0 where
  pub fact_type : String
  pub left_document_name : String
  pub left_value : String
  pub right_document_name : String
  pub right_value : String

pub record WorkflowState : Type 0 where
  pub workflow_id : ℕ
  pub workflow_version : String
  pub tenant_id : ℕ
  pub claim_id : ℕ
  pub initiating_actor_id : ℕ
  pub correlation_id : String
  pub current_stage : Stage
  pub status : WorkflowStatus
  pub task : String
  pub retrieved_evidence : List Citation
  pub citations : List Citation
  pub applicable_policy_edition : String
  pub conflicts : List ConflictSummary
  pub ambiguities : List String
  pub missing_information : List String
  pub prompt_injection_indicators : List String
  pub human_review_required : Bool
  pub human_review_reason : Option String
  pub proposed_next_steps : List String
  pub approval_state : ApprovalState
  pub checkpoint_version : ℕ
  pub input_fingerprint : String
  pub retry_count : ℕ
  pub max_retries : ℕ
  pub error_code : Option String
  pub error_detail : Option String

pub record WorkflowRun : Type 0 where
  pub id : ℕ
  pub tenant_id : ℕ
  pub claim_id : ℕ
  pub status : WorkflowStatus
  pub version : String
  pub correlation_id : String
  pub task : Option String
  pub current_stage : Stage
  pub checkpoint_version : ℕ
  pub idempotency_key : Option String
  pub input_fingerprint : Option String
  pub applicable_policy_edition : Option String
  pub human_review_required : Bool
  pub approval_state : ApprovalState
  pub retry_count : ℕ
  pub max_retries : ℕ
  pub error_code : Option String
  pub error_detail : Option String
  pub completed_at : Option ℕ
  pub created_at : ℕ
  pub updated_at : ℕ

pub record ReviewTask : Type 0 where
  pub tenant_id : ℕ
  pub claim_id : ℕ
  pub workflow_run_id : Option ℕ
  pub assigned_to_user_id : Option ℕ
  pub status : ReviewStatus
  pub reason_code : String
  pub reason : String
  pub version : ℕ
  pub created_at : ℕ
  pub updated_at : ℕ
  pub completed_at : Option ℕ

pub record WorkflowCheckpoint : Type 0 where
  pub workflow_run_id : ℕ
  pub tenant_id : ℕ
  pub claim_id : ℕ
  pub version : ℕ
  pub stage : Stage
  pub status : WorkflowStatus
  pub state : WorkflowState
  pub input_fingerprint : String

-- The actions of `ReviewActionRequest`.
pub data ReviewAction : Type 0 where
  acknowledge approve_proposed_next_step reject_proposal : ReviewAction
  request_more_information return_for_evidence_review : ReviewAction

-- The event types, which the code writes as `workflow.created`, `workflow.{stage}`,
-- `workflow.retry.{stage}`, `review.{action}`, `workflow.cancelled` and `workflow.failed`.
pub data EventType : Type 0 where
  workflow_created workflow_cancelled workflow_failed : EventType
  workflow_stage workflow_retry : Stage → EventType
  review : ReviewAction → EventType

pub record WorkflowEvent : Type 0 where
  pub workflow_run_id : ℕ
  pub tenant_id : ℕ
  pub claim_id : ℕ
  pub sequence : ℕ
  pub actor_user_id : Option ℕ
  pub event_type : EventType
  pub previous_status : Option WorkflowStatus
  pub new_status : WorkflowStatus
  pub stage : Stage
  pub correlation_id : String

pub record ReviewArtifact : Type 0 where
  pub established_evidence : List (String × String)
  pub applicable_policy_evidence : List (String × Option String)
  pub conflicting_evidence : List ConflictSummary
  pub ambiguous_evidence : List String
  pub missing_information : List String
  pub untrusted_content_flags : List String
  pub proposed_next_steps : List String
  pub human_review_reason : Option String
  pub citations : List Citation

pub record ArtifactRow : Type 0 where
  pub workflow_run_id : ℕ
  pub tenant_id : ℕ
  pub claim_id : ℕ
  pub version : ℕ
  pub content : ReviewArtifact

-- What `WorkflowReviewActionModel.action` records.
pub data RecordedAction : Type 0 where
  reviewed : ReviewAction → RecordedAction
  retried : RecordedAction

pub record ReviewActionRow : Type 0 where
  pub workflow_run_id : ℕ
  pub tenant_id : ℕ
  pub actor_user_id : ℕ
  pub action : RecordedAction
  pub reason : String
  pub expected_checkpoint_version : ℕ
  pub idempotency_key : String
