-- ===== src/Authorization/Tenant.antt =====
-- `ResolveTenantContext` of
-- packages/application/src/workflowforge_application/authorization/tenant_resolution.py, over the
-- rows that the repositories read.
pub mod Isolation
use workflow_forge.Base.{
  ℕ, List, Result, Option, none, ◌∷◌, ◌>>=◌, if◌then◌else◌, or_raise, tenant_access_denied, ◌==◌,
  ◌&&◌, ◌>>◌, some, raise_if, [], not, tenant_membership_inactive,
}
use workflow_forge.Identity.Membership.{Membership, ◌is_status◌, active}
use workflow_forge.Identity.Organization.{Organization}
use workflow_forge.Authorization.Context.{TenantContext, create}

-- `SqlAlchemyOrganizationRepository.get_by_id`
unfoldable pub get_by_id : ℕ → List Organization → Option Organization
get_by_id organization_id [] = none
get_by_id organization_id (o ∷ os) =
    if o.id == organization_id then some o else get_by_id organization_id os

-- `SqlAlchemyMembershipRepository.get_by_user_and_organization`; the pair is unique in the table
unfoldable pub get_by_user_and_organization :
    (user_id organization_id : ℕ) → List Membership → Option Membership
get_by_user_and_organization user_id organization_id [] = none
get_by_user_and_organization user_id organization_id (m ∷ ms) =
    if m.user_id == user_id && m.organization_id == organization_id
    then some m
    else get_by_user_and_organization user_id organization_id ms

unfoldable pub resolve :
    (user_id organization_id : ℕ) → List Organization → List Membership → Result TenantContext
resolve user_id organization_id organizations memberships = do
  organization ← or_raise (get_by_id organization_id organizations) tenant_access_denied
  raise_if (not organization.is_active) tenant_access_denied
  membership ←
      or_raise (get_by_user_and_organization user_id organization_id memberships)
        tenant_access_denied
  raise_if (not (membership.status is_status active)) tenant_membership_inactive
  create user_id organization_id membership.id membership.role
