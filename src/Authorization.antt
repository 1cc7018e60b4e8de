-- ===== src/Authorization.antt =====
-- packages/application/src/workflowforge_application/authorization: tenant contexts, permission checks
-- and the administration of memberships.
pub mod Context
pub mod Policy
pub mod Administration
pub mod Tenant
