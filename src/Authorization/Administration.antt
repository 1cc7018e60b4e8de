-- ===== src/Authorization/Administration.antt =====
-- `MembershipAdministrationPolicy` of
-- packages/application/src/workflowforge_application/authorization/policy.py.
pub mod Safety
use workflow_forge.Authorization.Context.{TenantContext}
use workflow_forge.Base.{
  Option, Result, List, raise_if, ok, ◌>>◌, if◌then◌else◌, none, some, not, ◌==◌,
  tenant_boundary_violation, err, membership_administration_denied, ◌&&◌,
}
use workflow_forge.Identity.Membership.{Membership, ◌is_status◌, active}
use workflow_forge.Identity.Roles.{Role, ◌is_role◌, owner, admin}
use workflow_forge.Identity.Owners.{
  MembershipMutation, suspend_owner, ensure_not_last_active_owner, remove_owner, demote_owner,
}

pub data MembershipAdministrationMutation : Type 0 where
  update suspend remove change_role invite : MembershipAdministrationMutation

unfoldable pub ensure_context_matches_target : TenantContext → Membership → Result (Unit {0})
ensure_context_matches_target context target =
    raise_if (not (context.organization_id == target.organization_id)) tenant_boundary_violation

unfoldable pub ensure_same_organization : Membership → Membership → Result (Unit {0})
ensure_same_organization actor target =
    raise_if (not (actor.organization_id == target.organization_id)) tenant_boundary_violation

-- The domain mutation that an administration mutation stands for, if it can cost an owner.
abbrev pub domain_mutation : MembershipAdministrationMutation → Option MembershipMutation
domain_mutation update = none
domain_mutation suspend = some suspend_owner
domain_mutation remove = some remove_owner
domain_mutation change_role = some demote_owner
domain_mutation invite = none

abbrev ensure_mutation :
    Membership → List Membership → Option MembershipMutation → Result (Unit {0})
ensure_mutation target memberships none = ok tt
ensure_mutation target memberships (some mutation) =
    ensure_not_last_active_owner target memberships mutation

unfoldable pub ensure_owner_last_owner_rule :
    Membership → MembershipAdministrationMutation → List Membership → Result (Unit {0})
ensure_owner_last_owner_rule target mutation memberships =
    if not (target.role is_role owner)
    then ok tt
    else if not (target.status is_status active)
    then ok tt
    else ensure_mutation target memberships (domain_mutation mutation)

unfoldable pub ensure_self_role_change_allowed : Membership → Membership → Role → Result (Unit {0})
ensure_self_role_change_allowed actor target new_role =
    if not (actor.id == target.id)
    then ok tt
    else if new_role is_role target.role
    then ok tt
    else if actor.role is_role owner
    then ok tt
    else err membership_administration_denied

-- The branches of `ensure_target_manageable` by the role of the actor.
abbrev manageable_by :
    Role → Membership → MembershipAdministrationMutation → List Membership → Result (Unit {0})
manageable_by owner target mutation memberships =
    ensure_owner_last_owner_rule target mutation memberships
manageable_by admin target mutation memberships =
    raise_if (target.role is_role owner) membership_administration_denied
manageable_by _ target mutation memberships = err membership_administration_denied

unfoldable pub ensure_target_manageable :
    (actor target : Membership)
    → MembershipAdministrationMutation
    → List Membership
    → Result (Unit {0})
unfolding ensure_same_organization ensure_owner_last_owner_rule
ensure_target_manageable actor target mutation memberships = do
  ensure_same_organization actor target
  manageable_by actor.role target mutation memberships

-- The branches of `ensure_role_assignment_allowed` by the role of the actor.
abbrev assignable_by : Role → Membership → Role → List Membership → Result (Unit {0})
assignable_by owner target new_role memberships =
    if target.role is_role owner && not (new_role is_role owner)
    then ensure_not_last_active_owner target memberships demote_owner
    else ok tt
assignable_by admin target new_role memberships = do
  raise_if (new_role is_role owner) membership_administration_denied
  raise_if (target.role is_role owner) membership_administration_denied
assignable_by _ target new_role memberships = err membership_administration_denied

unfoldable pub ensure_role_assignment_allowed :
    (actor target : Membership) → Role → List Membership → Result (Unit {0})
unfolding ensure_same_organization ensure_self_role_change_allowed
ensure_role_assignment_allowed actor target new_role memberships = do
  ensure_same_organization actor target
  ensure_self_role_change_allowed actor target new_role
  (if target.role is_role new_role
      then ok tt
      else assignable_by actor.role target new_role memberships)
