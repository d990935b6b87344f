-- ===== src/Retrieval.antt =====
-- packages/backend/src/insurance_platform/retrieval: what a search returns, the decision on an
-- answer, and the chunks of a page.
pub mod Types
pub mod Chunking
pub mod Answering
pub mod Indexing
pub mod Search
mod Tests
