-- ===== src/Examples/Tenants.antt =====
-- A tenant that is resolved, and permissions that are required of it.
use workflow_forge.Authorization.Tenant.{resolve, get_by_id, get_by_user_and_organization}
use workflow_forge.Identity.Membership.{Membership, active}
use workflow_forge.Identity.Roles.Hierarchy.{grants, role_hierarchy}
use workflow_forge.Authorization.Tenant.Isolation.{IsBacked, resolve-IsBacked}
use workflow_forge.Identity.Organization.{Organization}
use workflow_forge.Authorization.Context
use workflow_forge.Authorization.Policy.{require_all, allows_all, require_all-eq}
use workflow_forge.Identity.Roles.{
  auditor, reviewer, case_read, case_write, permissions_for_role, contains, operator, admin,
  security_manage, owner,
}
use workflow_forge.Base.{
  ◌∷◌, ◌≡◌, [], ok, if◌then◌else◌, true, none, refl, is_empty, err, some, not, value_error,
  required, permission_denied,
}
use workflow_forge.Time.{utc}
use workflow_forge.Identity.Validation.{validate_uuid}
use workflow_forge.Authorization.Context.{TenantContext, set_validated}

abbrev acme : Organization
acme = record {
  id = 7;
  name = 97 ∷ [];
  slug = 97 ∷ [];
  is_active = true;
  created_at = utc 100;
  updated_at = utc 100;
  deactivated_at = none;
}

abbrev member : Membership
member = record {
  id = 3;
  user_id = 11;
  organization_id = 7;
  role = auditor;
  status = active;
  created_at = utc 100;
  updated_at = utc 100;
  invited_at = none;
  joined_at = some (utc 100);
  suspended_at = none;
  removed_at = none;
}

abbrev context : TenantContext
context = record {
  user_id = 11;
  organization_id = 7;
  membership_id = 3;
  role = auditor;
  permissions = permissions_for_role auditor;
}

resolved : resolve 11 7 (acme ∷ []) (member ∷ []) ≡ ok context
unfolding resolve get_by_id get_by_user_and_organization Context.create set_validated validate_uuid
resolved = refl

resolve-IsBacked_example : IsBacked 11 7 (acme ∷ []) (member ∷ []) context
resolve-IsBacked_example = resolve-IsBacked 11 7 (acme ∷ []) (member ∷ []) resolved

require_all-eq_example : require_all context (case_read ∷ case_write ∷ []) ≡ (
    if is_empty (case_read ∷ case_write ∷ [])
    then err (value_error required)
    else if allows_all context (case_read ∷ case_write ∷ [])
    then ok tt
    else err permission_denied)
require_all-eq_example = require_all-eq context (case_read ∷ case_write ∷ [])

role_hierarchy_example :
    (grants reviewer case_read ≡ true → grants operator case_read ≡ true)
    × (grants operator case_read ≡ true → grants admin case_read ≡ true)
    × (grants auditor case_read ≡ true → grants admin case_read ≡ true)
    × (grants admin case_read ≡ not (contains case_read (security_manage ∷ [])))
    × (grants owner case_read ≡ true)
role_hierarchy_example = role_hierarchy case_read
