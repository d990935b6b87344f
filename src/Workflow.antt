-- ===== src/Workflow.antt =====
-- packages/backend/src/insurance_platform/workflows: the controlled evidence-review workflow.
pub mod Graph
pub mod Service
pub mod Trail
pub mod Guards
pub mod Starts
pub mod Cancellation
pub mod Fixtures
mod Tests
