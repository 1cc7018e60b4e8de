-- ===== src/Authorization/Context.antt =====
-- `TenantContext` of packages/application/src/workflowforge_application/authorization/context.py.
use workflow_forge.Base.{ℕ, Result, List, ◌>>◌, ok}
use workflow_forge.Identity.Roles.{Role, Permission, permissions_for_role}
use workflow_forge.Identity.Validation.{validate_uuid}

pub record TenantContext : Type 0 where
  pub user_id : ℕ
  pub organization_id : ℕ
  pub membership_id : ℕ
  pub role : Role
  pub permissions : List Permission

-- `_set_validated`; its tests on the Python types of the arguments always pass here.
unfoldable pub set_validated :
    (user_id organization_id membership_id : ℕ) → Role → List Permission → Result TenantContext
set_validated user_id organization_id membership_id role permissions = do
  validate_uuid user_id
  validate_uuid organization_id
  validate_uuid membership_id
  ok (record {
    user_id = user_id;
    organization_id = organization_id;
    membership_id = membership_id;
    role = role;
    permissions = permissions;
  })

-- `create`, which resolves the permissions from the role
unfoldable pub create : (user_id organization_id membership_id : ℕ) → Role → Result TenantContext
create user_id organization_id membership_id role =
    set_validated user_id organization_id membership_id role (permissions_for_role role)
