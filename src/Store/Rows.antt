-- ===== src/Store/Rows.antt =====
-- infrastructure/models.py: the rows of users, claims, documents and indexes. A relation
-- that a query loads with its row (`claim.policy`, `user.roles`, `fact.document.name`) is a field of
-- the row. Columns that no operation reads back or decides by are left out.
use aegisclaims_ai.Prelude.{ℕ, String, Bool, Option, List}
use aegisclaims_ai.Domain.{RoleName, DocumentStatus}

pub record User : Type 0 where
  pub id : ℕ
  pub tenant_id : ℕ
  pub subject : String
  pub display_name : String
  pub email : String
  pub password_hash : Option String
  pub account_status : String
  pub is_active : Bool
  pub last_login_at : Option ℕ
  pub roles : List RoleName

pub record UserSession : Type 0 where
  pub tenant_id : ℕ
  pub user_id : ℕ
  pub token_hash : String
  pub expires_at : ℕ
  pub last_seen_at : ℕ
  pub revoked_at : Option ℕ

pub record Claim : Type 0 where
  pub id : ℕ
  pub tenant_id : ℕ
  pub claim_number : String
  pub policy_edition : String
  pub created_at : ℕ

pub record ClaimAssignment : Type 0 where
  pub tenant_id : ℕ
  pub claim_id : ℕ
  pub user_id : ℕ
  pub assignment_type : String

pub record Document : Type 0 where
  pub id : ℕ
  pub tenant_id : ℕ
  pub claim_id : ℕ
  pub name : String
  pub document_type : String
  pub storage_key : String
  pub normalized_storage_key : Option String
  pub extraction_artifact_key : Option String
  pub detected_mime_type : String
  pub checksum_sha256 : String
  pub size_bytes : ℕ
  pub processing_status : DocumentStatus
  pub extraction_status : String
  pub page_count : ℕ
  pub injection_risk : Bool
  pub uploaded_by_user_id : Option ℕ
  pub error_code : Option String
  pub error_detail : Option String

pub record DocumentPage : Type 0 where
  pub tenant_id : ℕ
  pub document_id : ℕ
  pub page_number : ℕ
  pub text : String
  pub text_sha256 : String
  pub extraction_method : String

pub record DocumentFact : Type 0 where
  pub id : ℕ
  pub tenant_id : ℕ
  pub claim_id : ℕ
  pub document_id : ℕ
  pub page_number : ℕ
  pub fact_type : String
  pub raw_source_span : String
  pub normalized_value : String
  pub document_name : String

pub record FactConflict : Type 0 where
  pub tenant_id : ℕ
  pub claim_id : ℕ
  pub fact_type : String
  pub left_fact : DocumentFact
  pub right_fact : DocumentFact

pub record ProcessingEvent : Type 0 where
  pub tenant_id : ℕ
  pub document_id : ℕ
  pub status : DocumentStatus
  pub detail : String
  pub correlation_id : String

pub record RetrievalChunk : Type 0 where
  pub id : ℕ
  pub index_id : ℕ
  pub tenant_id : ℕ
  pub claim_id : ℕ
  pub document_id : ℕ
  pub page_number : ℕ
  pub chunk_identifier : String
  pub chunk_ordinal : ℕ
  pub document_type : String
  pub policy_edition : Option String
  pub source_checksum : String
  pub page_checksum : String
  pub normalized_text : String
  pub source_start : ℕ
  pub source_end : ℕ
  pub embedding_version : String
  pub injection_risk : Bool
  pub document_name : String

pub data IndexStatus : Type 0 where
  indexing ready failed : IndexStatus

pub record DocumentIndex : Type 0 where
  pub id : ℕ
  pub tenant_id : ℕ
  pub claim_id : ℕ
  pub document_id : ℕ
  pub source_checksum : String
  pub chunker_version : String
  pub embedding_version : String
  pub status : IndexStatus
  pub chunk_count : ℕ

-- `AuditEventModel`. The details are read by people only; what the code computes from is kept.
pub record AuditEvent : Type 0 where
  pub tenant_id : ℕ
  pub actor_user_id : Option ℕ
  pub action : String
  pub resource_type : String
  pub resource_id : ℕ
  pub outcome : String
  pub correlation_id : String
