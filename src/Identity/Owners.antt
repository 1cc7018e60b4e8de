-- ===== src/Identity/Owners.antt =====
-- `MembershipPolicy` of packages/domain/src/workflowforge_domain/identity/policies.py.
pub mod Safety
use workflow_forge.Base.{
  ℕ, Bool, List, ◌==◌, true, if◌then◌else◌, ◌&&◌, any, ◌∷◌, Result, not, ◌||◌, ok, raise_if, leb,
  length, last_active_owner_violation, [],
}
use workflow_forge.Identity.Membership.{Membership, ◌is_status◌, active}
use workflow_forge.Identity.Roles.{◌is_role◌, owner}

pub data MembershipMutation : Type 0 where
  demote_owner suspend_owner remove_owner : MembershipMutation

-- `mutation in {DEMOTE_OWNER, SUSPEND_OWNER, REMOVE_OWNER}`
abbrev pub is_owner_mutation : MembershipMutation → Bool
is_owner_mutation demote_owner = true
is_owner_mutation suspend_owner = true
is_owner_mutation remove_owner = true

-- A set of identifiers as a list without repetitions.
abbrev pub mem_id : ℕ → List ℕ → Bool
mem_id a = any (λ b. a == b)

abbrev pub add_id : ℕ → List ℕ → List ℕ
add_id a s = if mem_id a s then s else a ∷ s

-- An active owner membership of the organization.
abbrev pub is_active_owner : ℕ → Membership → Bool
is_active_owner organization_id m =
    m.organization_id == organization_id && m.role is_role owner && m.status is_status active

-- `{target.id}`, updated with the identifiers of the active owners among the memberships
unfoldable pub active_owner_ids : Membership → List Membership → List ℕ
active_owner_ids target [] = target.id ∷ []
active_owner_ids target (m ∷ ms) =
    let ids = active_owner_ids target ms in
    if is_active_owner target.organization_id m then add_id m.id ids else ids

unfoldable pub ensure_not_last_active_owner :
    Membership → List Membership → MembershipMutation → Result (Unit {0})
unfolding active_owner_ids
ensure_not_last_active_owner target memberships mutation =
    if not (target.role is_role owner) || not (target.status is_status active)
    then ok tt
    else if not (is_owner_mutation mutation)
    then ok tt
    else let ids = active_owner_ids target memberships in
      raise_if (leb (length ids) 1 && mem_id target.id ids) last_active_owner_violation
