-- ===== src/Documents.antt =====
-- packages/backend/src/insurance_platform/documents: the checks on an upload, the processing of a
-- document, and the conflicts between the facts of documents.
pub mod Conflicts
pub mod Upload
pub mod Classification
pub mod Extraction
pub mod Ingestion
pub mod Processing
mod Tests
