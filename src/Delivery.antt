-- ===== src/Delivery.antt =====
-- delivery/: the routes, the sign-in, the current actor, and the middleware.
pub mod Types
pub mod Routes
pub mod Signin
pub mod Middleware
pub mod Jobs
mod Tests
