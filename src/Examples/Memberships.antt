-- ===== src/Examples/Memberships.antt =====
-- An organization with two owners, one of them suspended and removed.
use workflow_forge.Identity.Membership
use workflow_forge.Authorization.Administration.{
  MembershipAdministrationMutation, ensure_target_manageable, ensure_role_assignment_allowed,
}
use workflow_forge.Identity.Membership.{
  suspend, remove, validate_lifecycle_state, Membership, removed, suspended, active,
}
use workflow_forge.Base.{
  ℕ, ◌≡◌, List, All, arith, ◌∷◌, ok, [], refl, true, if◌then◌else◌, ◌↔◌, some, none, ◌&&◌, not, any,
  err, last_active_owner_violation, ◌≢◌,
}
use workflow_forge.Identity.Membership.Steps.{IsStep, apply-IsStep, removed_final}
use workflow_forge.Identity.Owners.{ensure_not_last_active_owner, suspend_owner, is_active_owner}
use workflow_forge.Identity.Membership.Lifecycle.{
  WellFormed, HasConsistentDates, validate_lifecycle_state_iff,
}
use workflow_forge.Identity.Membership.Changes.{
  apply, removal, suspension, expected, apply-eq-expected,
}
use workflow_forge.Authorization.Administration.Safety.{
  has_active_owner, rewritten, IsRowOf, manageable_keeps_owner, assignment_keeps_owner,
}
use workflow_forge.Identity.Roles.{owner, reviewer}
use workflow_forge.Time.{utc, normalize, normalize_optional}
use workflow_forge.Identity.Owners.Safety.{is_other_owner, ensure_not_last_active_owner-eq}
use workflow_forge.Identity.Validation.{validate_uuid}

abbrev first_owner : Membership
first_owner = record {
  id = 1;
  user_id = 11;
  organization_id = 7;
  role = owner;
  status = active;
  created_at = utc 100;
  updated_at = utc 100;
  invited_at = none;
  joined_at = some (utc 100);
  suspended_at = none;
  removed_at = none;
}

abbrev second_owner : Membership
second_owner = record first_owner { id = 2; user_id = 12 }

abbrev removed_owner : Membership
removed_owner = record first_owner {
  status = removed;
  updated_at = utc 150;
  removed_at = some (utc 150);
}

abbrev suspended_owner : Membership
suspended_owner = record first_owner {
  status = suspended;
  updated_at = utc 150;
  suspended_at = some (utc 150);
}

first_owner-WellFormed : WellFormed first_owner
first_owner-WellFormed = ground arith

removed_owner-WellFormed : WellFormed removed_owner
removed_owner-WellFormed = ground arith

abbrev owners : List Membership
owners = first_owner ∷ second_owner ∷ []

ensure_not_last_active_owner-eq_example :
    ensure_not_last_active_owner first_owner owners suspend_owner ≡ (
      if is_active_owner 7 first_owner && not (any (is_other_owner first_owner) owners)
      then err last_active_owner_violation
      else ok tt)
ensure_not_last_active_owner-eq_example =
    ensure_not_last_active_owner-eq first_owner owners suspend_owner

two_ne_one : ◌≢◌ {A = ℕ} 2 1
two_ne_one = omega arith

owners-IsRowOf : All (IsRowOf first_owner) owners
owners-IsRowOf = (λ e. refl, (λ e. absurd (two_ne_one e), tt))

removal_allowed :
    ensure_target_manageable second_owner first_owner MembershipAdministrationMutation.remove owners
    ≡ ok tt
unfolding ensure_target_manageable ensure_not_last_active_owner
removal_allowed = refl

manageable_keeps_owner_example :
    has_active_owner 7 (rewritten first_owner removed_owner owners) ≡ true
manageable_keeps_owner_example =
    manageable_keeps_owner second_owner first_owner removed_owner
      MembershipAdministrationMutation.remove owners owners-IsRowOf refl removal_allowed refl

demotion_allowed : ensure_role_assignment_allowed second_owner first_owner reviewer owners ≡ ok tt
unfolding ensure_role_assignment_allowed ensure_not_last_active_owner
demotion_allowed = refl

assignment_keeps_owner_example :
    has_active_owner 7 (rewritten first_owner (record first_owner { role = reviewer }) owners)
    ≡ true
assignment_keeps_owner_example =
    assignment_keeps_owner second_owner first_owner reviewer owners owners-IsRowOf demotion_allowed
      refl

validate_lifecycle_state_iff_example :
    (validate_lifecycle_state suspended_owner ≡ ok tt)
    ↔ HasConsistentDates suspended suspended_owner
validate_lifecycle_state_iff_example = validate_lifecycle_state_iff suspended_owner

apply-eq-expected_example :
    apply (suspension (utc 150)) first_owner ≡ expected (suspension (utc 150)) first_owner
apply-eq-expected_example =
    apply-eq-expected (suspension (utc 150)) first_owner first_owner-WellFormed

suspension_returns : apply (suspension (utc 150)) first_owner ≡ ok suspended_owner
unfolding suspend Membership.mutation_timestamp normalize Membership.post_init validate_uuid
    normalize_optional validate_lifecycle_state
suspension_returns = refl

apply-IsStep_example : IsStep first_owner suspended_owner
apply-IsStep_example =
    apply-IsStep (suspension (utc 150)) first_owner suspended_owner first_owner-WellFormed
      suspension_returns

removal_again : apply (removal (utc 170)) removed_owner ≡ ok removed_owner
unfolding remove
removal_again = refl

removed_final_example : removed_owner ≡ removed_owner
removed_final_example =
    removed_final (removal (utc 170)) removed_owner removed_owner removed_owner-WellFormed refl
      removal_again
