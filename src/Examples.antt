-- ===== src/Examples.antt =====
-- Concrete inputs at which the theorems apply.
pub mod Memberships
pub mod Accounts
pub mod Tenants
pub mod LoginData
pub mod Logins
pub mod Replays
pub mod Batching
pub mod BatchPages
pub mod CaseWork
pub mod Papers
