-- ===== src/Domain.antt =====
-- packages/backend/src/insurance_platform/domain: roles, actions, statuses and the actor.
mod Enums
mod Entities
pub use Enums.*
pub use Entities.*
