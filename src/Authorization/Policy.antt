-- ===== src/Authorization/Policy.antt =====
-- `AuthorizationPolicy` of packages/application/src/workflowforge_application/authorization/policy.py.
use workflow_forge.Base.{
  List, ◌≡◌, ◌∷◌, is_empty, Result, Bool, all, any, if◌then◌else◌, raise_if, ◌>>◌, err, not, arith,
  value_error, [], required, permission_denied, ok, refl,
}
use workflow_forge.Authorization.Context.{TenantContext}
use workflow_forge.Identity.Roles.{Permission, contains}

unfoldable pub allows : TenantContext → Permission → Bool
allows context permission = contains permission context.permissions

unfoldable pub allows_any : TenantContext → List Permission → Bool
allows_any context permissions = any (λ p. contains p context.permissions) permissions

unfoldable pub allows_all : TenantContext → List Permission → Bool
allows_all context permissions = all (λ p. contains p context.permissions) permissions

unfoldable pub require : TenantContext → Permission → Result (Unit {0})
require context permission = raise_if (not (allows context permission)) permission_denied

unfoldable pub require_any : TenantContext → List Permission → Result (Unit {0})
require_any context permissions = do
  raise_if (is_empty permissions) (value_error required)
  raise_if (not (allows_any context permissions)) permission_denied

-- `permission_set.difference(context.permissions)`
unfoldable pub difference : List Permission → List Permission → List Permission
difference [] held = []
difference (p ∷ ps) held =
    let rest = difference ps held in if contains p held then rest else p ∷ rest

unfoldable pub require_all : TenantContext → List Permission → Result (Unit {0})
require_all context permissions = do
  raise_if (is_empty permissions) (value_error required)
  let missing = difference permissions context.permissions
  raise_if (not (is_empty missing)) permission_denied

is_empty-difference :
    (ps held : List Permission) → is_empty (difference ps held) ≡ all (λ p. contains p held) ps
unfolding difference
is_empty-difference [] held = refl
is_empty-difference (p ∷ ps) held = ground (arith, is_empty-difference ps held)

-- Requiring all of a set of permissions raises a value error for the empty set, passes exactly if
-- the context allows all of them, and is denied otherwise.
pub require_all-eq :
    (context : TenantContext) (permissions : List Permission)
    → require_all context permissions ≡ (
        if is_empty permissions
        then err (value_error required)
        else if allows_all context permissions
        then ok tt
        else err permission_denied)
unfolding require_all allows_all
require_all-eq context permissions =
    ground (arith, is_empty-difference permissions context.permissions)
