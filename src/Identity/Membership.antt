-- ===== src/Identity/Membership.antt =====
-- `Membership` of packages/domain/src/workflowforge_domain/identity/entities.py. A method raises, or
-- returns the new membership that its constructor call validates.
pub mod Lifecycle
pub mod Changes
pub mod Steps
use workflow_forge.Base.{
  ℕ, Bool, true, false, not, ◌||◌, Option, none, some, if◌then◌else◌, is_none, is_some, Error,
  Result, ok, err, raise_if, ◌>>=◌, ◌>>◌, invalid_timestamp, invalid_membership_transition,
  membership_already_removed, updated_early, mutation_early, missing_timestamp, surplus_timestamp,
}
use workflow_forge.Time.{DateTime, before}
use workflow_forge.Identity.Validation.{
  validate_uuid, normalize_timestamp, normalize_timestamp_optional,
}
use workflow_forge.Identity.Roles.{Role, ◌is_role◌}

pub data MembershipStatus : Type 0 where
  invited active suspended removed : MembershipStatus

-- `status is other`
infix 50 ◌is_status◌
abbrev pub ◌is_status◌ : MembershipStatus → MembershipStatus → Bool
invited is_status invited = true
active is_status active = true
suspended is_status suspended = true
removed is_status removed = true
_ is_status _ = false

pub record Membership : Type 0 where
  pub id : ℕ
  pub user_id : ℕ
  pub organization_id : ℕ
  pub role : Role
  pub status : MembershipStatus
  pub created_at : DateTime
  pub updated_at : DateTime
  pub invited_at : Option DateTime
  pub joined_at : Option DateTime
  pub suspended_at : Option DateTime
  pub removed_at : Option DateTime

-- `_validate_lifecycle_state`; the branch for a status that is no member of the enum has no case.
unfoldable pub validate_lifecycle_state : Membership → Result (Unit {0})
validate_lifecycle_state m = by_status m.status
  where
    by_status : MembershipStatus → Result (Unit {0})
    by_status invited = do
      raise_if (is_none m.invited_at) (invalid_timestamp missing_timestamp)
      raise_if (is_some m.joined_at || is_some m.suspended_at) (invalid_timestamp surplus_timestamp)
      raise_if (is_some m.removed_at) (invalid_timestamp surplus_timestamp)
    by_status active = do
      raise_if (is_none m.joined_at) (invalid_timestamp missing_timestamp)
      raise_if (is_some m.suspended_at || is_some m.removed_at)
          (invalid_timestamp surplus_timestamp)
    by_status suspended = do
      raise_if (is_none m.joined_at || is_none m.suspended_at) (invalid_timestamp missing_timestamp)
      raise_if (is_some m.removed_at) (invalid_timestamp surplus_timestamp)
    by_status removed = raise_if (is_none m.removed_at) (invalid_timestamp missing_timestamp)

-- `__post_init__`: every construction of a membership goes through it.
unfoldable pub post_init : Membership → Result Membership
post_init m = do
  validate_uuid m.id
  validate_uuid m.user_id
  validate_uuid m.organization_id
  created_at ← normalize_timestamp m.created_at
  updated_at ← normalize_timestamp m.updated_at
  invited_at ← normalize_timestamp_optional m.invited_at
  joined_at ← normalize_timestamp_optional m.joined_at
  suspended_at ← normalize_timestamp_optional m.suspended_at
  removed_at ← normalize_timestamp_optional m.removed_at
  raise_if (before updated_at created_at) (invalid_timestamp updated_early)
  let normalized = record m {
    created_at = created_at;
    updated_at = updated_at;
    invited_at = invited_at;
    joined_at = joined_at;
    suspended_at = suspended_at;
    removed_at = removed_at;
  }
  validate_lifecycle_state normalized
  ok normalized

unfoldable pub mutation_timestamp : Membership → DateTime → Result DateTime
mutation_timestamp m value = do
  timestamp ← normalize_timestamp value
  raise_if (before timestamp m.created_at) (invalid_timestamp mutation_early)
  ok timestamp

-- The exception of `_raise_invalid_transition`.
abbrev pub transition_error : MembershipStatus → Error
transition_error removed = membership_already_removed
transition_error _ = invalid_membership_transition

unfoldable pub invite : (id user_id organization_id : ℕ) → Role → DateTime → Result Membership
invite id user_id organization_id role now = do
  timestamp ← normalize_timestamp now
  post_init (record {
    id = id;
    user_id = user_id;
    organization_id = organization_id;
    role = role;
    status = invited;
    created_at = timestamp;
    updated_at = timestamp;
    invited_at = some timestamp;
    joined_at = none;
    suspended_at = none;
    removed_at = none;
  })

unfoldable pub activate_directly :
    (id user_id organization_id : ℕ) → Role → DateTime → Result Membership
activate_directly id user_id organization_id role now = do
  timestamp ← normalize_timestamp now
  post_init (record {
    id = id;
    user_id = user_id;
    organization_id = organization_id;
    role = role;
    status = active;
    created_at = timestamp;
    updated_at = timestamp;
    invited_at = none;
    joined_at = some timestamp;
    suspended_at = none;
    removed_at = none;
  })

unfoldable pub activate : Membership → DateTime → Result Membership
activate m now = if m.status is_status active then ok m else do
  raise_if (not (m.status is_status invited)) (transition_error m.status)
  timestamp ← mutation_timestamp m now
  post_init (record m {
    status = active;
    updated_at = timestamp;
    joined_at = some timestamp;
    suspended_at = none;
    removed_at = none;
  })

unfoldable pub suspend : Membership → DateTime → Result Membership
suspend m now = do
  raise_if (not (m.status is_status active)) (transition_error m.status)
  timestamp ← mutation_timestamp m now
  post_init (record m {
    status = suspended;
    updated_at = timestamp;
    suspended_at = some timestamp;
    removed_at = none;
  })

unfoldable pub reactivate : Membership → DateTime → Result Membership
reactivate m now = if m.status is_status active then ok m else do
  raise_if (not (m.status is_status suspended)) (transition_error m.status)
  timestamp ← mutation_timestamp m now
  post_init
      (record m { status = active; updated_at = timestamp; suspended_at = none; removed_at = none })

unfoldable pub remove : Membership → DateTime → Result Membership
remove m now = if m.status is_status removed then ok m else do
  timestamp ← mutation_timestamp m now
  post_init (record m { status = removed; updated_at = timestamp; removed_at = some timestamp })

unfoldable pub change_role : Membership → Role → DateTime → Result Membership
change_role m role now = do
  raise_if (m.status is_status removed) membership_already_removed
  raise_if (m.status is_status suspended) (transition_error m.status)
  if role is_role m.role then ok m else do
    timestamp ← mutation_timestamp m now
    post_init (record m { role = role; updated_at = timestamp })
