-- ===== src/Authorization/Administration/Safety.antt =====
-- Administration never takes the last active owner from an organization.
use workflow_forge.Base.{
  ℕ, ◌≡◌, List, Bool, any, map, All, if◌then◌else◌, true, ◌==◌, false, ◌∷◌, arith, [], Bool-cases,
  ℕ_discrete, is_some, ◌≢◌, inl, ok, inr, refl,
}
use workflow_forge.Identity.Membership.{Membership}
use workflow_forge.Identity.Owners.{is_active_owner, demote_owner, suspend_owner, remove_owner}
use workflow_forge.Identity.Owners.Safety.{is_other_owner, ensure_not_last_active_owner-eq}
use workflow_forge.Authorization.Administration.{
  ensure_target_manageable, MembershipAdministrationMutation, ensure_role_assignment_allowed,
  domain_mutation,
}
use workflow_forge.Identity.Roles.{Role, owner}

-- The memberships with the row of `target` rewritten.
abbrev pub rewritten : Membership → Membership → List Membership → List Membership
rewritten target target' = map (λ m. if m.id == target.id then target' else m)

-- The organization has an active owner among the memberships.
abbrev pub has_active_owner : ℕ → List Membership → Bool
has_active_owner organization_id = any (is_active_owner organization_id)

-- A row with the identifier of the target is the target.
abbrev pub IsRowOf : Membership → Membership → Type 0
IsRowOf target m = m.id ≡ target.id → m ≡ target

has_active_owner-of_other :
    (target target' : Membership) (ms : List Membership)
    → any (is_other_owner target) ms ≡ true
    → has_active_owner target.organization_id (rewritten target target' ms) ≡ true
has_active_owner-of_other target target' [] h = cc
has_active_owner-of_other target target' (m ∷ ms) h =
    ground (arith, has_active_owner-of_other target target' ms)

IsRowOf-not_owner :
    (target m : Membership)
    → IsRowOf target m
    → is_active_owner target.organization_id target ≡ false
    → is_other_owner target m ≡ false
    → is_active_owner target.organization_id m ≡ false
IsRowOf-not_owner target m row h e = elim (ℕ_discrete m.id target.id) [
  | yes p ↦ rw (row p) h
  | no p ↦ ground arith
]

-- If the target is no active owner, an active owner is another membership.
other_of_has_active_owner :
    (target : Membership) (ms : List Membership)
    → All (IsRowOf target) ms
    → is_active_owner target.organization_id target ≡ false
    → has_active_owner target.organization_id ms ≡ true
    → any (is_other_owner target) ms ≡ true
other_of_has_active_owner target [] rows h k = cc
other_of_has_active_owner target (m ∷ ms) rows h k = elim (Bool-cases (is_other_owner target m)) [
  | inl e ↦ rw e
  | inr e ↦ rw e (
      other_of_has_active_owner target ms rows.1 h
        (ground (arith, IsRowOf-not_owner target m rows.0 h e)))
]

-- The administration mutations that can cost an owner.
abbrev pub can_cost_owner : MembershipAdministrationMutation → Bool
can_cost_owner mutation = is_some (domain_mutation mutation)

other_of_manageable :
    (actor target : Membership) (mutation : MembershipAdministrationMutation) (ms : List Membership)
    → can_cost_owner mutation ≡ true
    → is_active_owner target.organization_id target ≡ true
    → ensure_target_manageable actor target mutation ms ≡ ok tt
    → any (is_other_owner target) ms ≡ true
unfolding ensure_target_manageable
other_of_manageable actor target MembershipAdministrationMutation.suspend ms c o h =
    ground (arith, ensure_not_last_active_owner-eq target ms suspend_owner)
other_of_manageable actor target MembershipAdministrationMutation.remove ms c o h =
    ground (arith, ensure_not_last_active_owner-eq target ms remove_owner)
other_of_manageable actor target MembershipAdministrationMutation.change_role ms c o h =
    ground (arith, ensure_not_last_active_owner-eq target ms demote_owner)
other_of_manageable actor target _ ms c o h = cc

-- If an organization has an active owner, it still has one after a suspension, a removal or a role
-- change that `ensure_target_manageable` lets pass, whoever acts and whatever the row of the target
-- becomes. The memberships are listed with one row for the target.
pub manageable_keeps_owner :
    (actor target target' : Membership) (mutation : MembershipAdministrationMutation)
    (ms : List Membership)
    → All (IsRowOf target) ms
    → can_cost_owner mutation ≡ true
    → ensure_target_manageable actor target mutation ms ≡ ok tt
    → has_active_owner target.organization_id ms ≡ true
    → has_active_owner target.organization_id (rewritten target target' ms) ≡ true
manageable_keeps_owner actor target target' mutation ms rows c h k =
    has_active_owner-of_other target target' ms
      (elim (Bool-cases (is_active_owner target.organization_id target)) [
        | inl o ↦ other_of_manageable actor target mutation ms c o h
        | inr o ↦ other_of_has_active_owner target ms rows o k
      ])

promotion_keeps_owner :
    (target : Membership) (ms : List Membership)
    → All (IsRowOf target) ms
    → has_active_owner target.organization_id ms ≡ true
    → has_active_owner target.organization_id (rewritten target (record target { role = owner }) ms)
      ≡ true
promotion_keeps_owner target [] rows k = cc
promotion_keeps_owner target (m ∷ ms) rows k = elim (ℕ_discrete m.id target.id) [
  | yes p ↦ ground (arith, rows.0 p, promotion_keeps_owner target ms rows.1)
  | no p ↦ ground (arith, promotion_keeps_owner target ms rows.1)
]

other_of_assignable :
    (actor target : Membership) (new_role : Role) (ms : List Membership)
    → new_role ≢ owner
    → is_active_owner target.organization_id target ≡ true
    → ensure_role_assignment_allowed actor target new_role ms ≡ ok tt
    → any (is_other_owner target) ms ≡ true
unfolding ensure_role_assignment_allowed
other_of_assignable actor target owner ms n o h = absurd (n refl)
other_of_assignable actor target _ ms n o h =
    ground (arith, ensure_not_last_active_owner-eq target ms demote_owner)

-- If an organization has an active owner, it still has one after a role assignment that
-- `ensure_role_assignment_allowed` lets pass: the target's row has the new role and is otherwise
-- the same. The memberships are listed with one row for the target.
pub assignment_keeps_owner :
    (actor target : Membership) (new_role : Role) (ms : List Membership)
    → All (IsRowOf target) ms
    → ensure_role_assignment_allowed actor target new_role ms ≡ ok tt
    → has_active_owner target.organization_id ms ≡ true
    → has_active_owner target.organization_id
        (rewritten target (record target { role = new_role }) ms)
      ≡ true
assignment_keeps_owner actor target owner ms rows h k = promotion_keeps_owner target ms rows k
assignment_keeps_owner actor target new_role ms rows h k =
    has_active_owner-of_other target (record target { role = new_role }) ms
      (elim (Bool-cases (is_active_owner target.organization_id target)) [
        | inl o ↦ other_of_assignable actor target new_role ms (λ e. cc) o h
        | inr o ↦ other_of_has_active_owner target ms rows o k
      ])
