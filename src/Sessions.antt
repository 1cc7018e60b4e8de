-- ===== src/Sessions.antt =====
-- Authenticated sessions and rotating refresh tokens: the domain model, its tables and the use cases.
pub mod Session
pub mod Token
pub mod Store
pub mod Repository
pub mod Claims
pub mod Lifecycle
