-- ===== src/Http.antt =====
-- internal/httpapi: the HTTP layer.
pub mod Message
pub mod Numbers
pub mod Middleware
pub mod Requests
pub mod Hooks
pub mod OnboardOrg
pub mod Handlers
pub mod Routes
pub mod Service
