-- ===== src/ModelAssistance.antt =====
-- model_assistance/: the governed generation of evidence briefs, and its two model providers.
pub mod Types
pub mod Validation
pub mod Generation
pub mod Service
pub mod Creation
pub mod Provider
pub mod Bedrock
mod Tests
