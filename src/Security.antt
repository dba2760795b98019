-- ===== src/Security.antt =====
-- src/agentops/security.py, and the middleware and access checks of src/agentops/main.py.
pub mod Redact
pub mod RateLimit
pub mod Authenticator
pub mod Boundary
pub mod Access
pub mod Checks
