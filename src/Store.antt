-- ===== src/Store.antt =====
-- infrastructure/models.py and infrastructure/repositories.py: the tables, the session, and the
-- queries that every service makes.
mod Rows
mod WorkflowRows
mod BriefRows
mod Transaction
pub mod Claims
pub mod Users
pub mod Reviews
pub use Rows.*
pub use WorkflowRows.*
pub use BriefRows.*
pub use Transaction.*
