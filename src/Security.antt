-- ===== src/Security.antt =====
-- packages/backend/src/insurance_platform/security and infrastructure/rate_limit.py: who may do
-- what, the sessions of local accounts, and the limits on protected operations.
pub mod Authorization
pub mod Sessions
pub mod Oidc
pub mod RateLimit
