-- ===== src/Identity.antt =====
-- packages/domain/src/workflowforge_domain/identity: users, organizations, memberships, roles.
pub mod Validation
pub mod Roles
pub mod Membership
pub mod Email
pub mod User
pub mod Organization
pub mod Owners
