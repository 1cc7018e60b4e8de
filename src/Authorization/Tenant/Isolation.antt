-- ===== src/Authorization/Tenant/Isolation.antt =====
-- A resolved tenant context speaks for an active membership of its own organization, and no other.
use workflow_forge.Authorization.Tenant.{get_by_user_and_organization, resolve, get_by_id}
use workflow_forge.Base.{
  ℕ, Error, List, raise_if, ◌≡◌, some, not, ok, ◌∷◌, true, arith, >>=-eq-ok, [], or_raise,
  tenant_access_denied, tenant_membership_inactive, or_raise-eq-ok, ap,
}
use workflow_forge.Authorization.Context.{create, set_validated, TenantContext}
use workflow_forge.Identity.Membership.{Membership, ◌is_status◌, active}
use workflow_forge.Identity.Organization.{Organization}
use workflow_forge.Identity.Roles.{Role, permissions_for_role, Permission, contains}
use workflow_forge.Authorization.Policy.{allows}
use workflow_forge.Identity.Roles.Hierarchy.{grants}

get_by_user_and_organization-eq-some :
    (user_id organization_id : ℕ) (ms : List Membership) (m : Membership)
    → get_by_user_and_organization user_id organization_id ms ≡ some m
    → (m.user_id ≡ user_id) × (m.organization_id ≡ organization_id)
unfolding get_by_user_and_organization
get_by_user_and_organization-eq-some u o [] m h = cc
get_by_user_and_organization-eq-some u o (x ∷ ms) m h =
    ground (arith, get_by_user_and_organization-eq-some u o ms m)

status_active :
    (m : Membership) (e : Error) {u : Unit {0}}
    → raise_if (not (m.status is_status active)) e ≡ ok u
    → m.status ≡ active
status_active m e h = ground arith

create-eq-ok :
    (u o i : ℕ) (r : Role) {c : TenantContext}
    → create u o i r ≡ ok c
    → c ≡ record {
      user_id = u;
      organization_id = o;
      membership_id = i;
      role = r;
      permissions = permissions_for_role r;
    }
unfolding create set_validated
create-eq-ok u o i r h = ground arith

-- What stands behind the context `c` of the user `u` in the organization `o`.
pub record IsBacked (u o : ℕ) (os : List Organization) (ms : List Membership) (c : TenantContext)
    : Type 0 where
  pub organization : Organization
  pub membership : Membership
  pub found : get_by_id o os ≡ some organization
  pub open_now : organization.is_active ≡ true
  pub listed : get_by_user_and_organization u o ms ≡ some membership
  pub of_user : membership.user_id ≡ u
  pub of_organization : membership.organization_id ≡ o
  pub is_active : membership.status ≡ active
  pub same_user : c.user_id ≡ u
  pub same_organization : c.organization_id ≡ o
  pub by_role : (p : Permission) → allows c p ≡ grants membership.role p

-- If a context is resolved, then the organization is stored and active, the user has an active
-- membership of that organization, the context names that user and that organization, and it
-- allows exactly what the role of the membership grants.
pub resolve-IsBacked :
    (u o : ℕ) (os : List Organization) (ms : List Membership) {c : TenantContext}
    → resolve u o os ms ≡ ok c
    → IsBacked u o os ms c
unfolding resolve allows
resolve-IsBacked u o os ms h =
    let (org, found, h) = >>=-eq-ok (or_raise (get_by_id o os) tenant_access_denied) _ h in
    let (_, act, h) = >>=-eq-ok (raise_if (not org.is_active) tenant_access_denied) _ h in
    let (m, listed, h) =
      >>=-eq-ok (or_raise (get_by_user_and_organization u o ms) tenant_access_denied) _ h in
    let (_, live, h) =
      >>=-eq-ok (raise_if (not (m.status is_status active)) tenant_membership_inactive) _ h in
    let c_eq = create-eq-ok u o m.id m.role h in
    let (of_user, of_organization) =
      get_by_user_and_organization-eq-some u o ms m (or_raise-eq-ok _ _ listed) in
    record {
      organization = org;
      membership = m;
      found = or_raise-eq-ok _ _ found;
      open_now = ground arith;
      listed = or_raise-eq-ok _ _ listed;
      of_user = of_user;
      of_organization = of_organization;
      is_active = status_active m _ live;
      same_user = ap (λ x. x.user_id) c_eq;
      same_organization = ap (λ x. x.organization_id) c_eq;
      by_role = λ p. ap (λ x. contains p x.permissions) c_eq;
    }
