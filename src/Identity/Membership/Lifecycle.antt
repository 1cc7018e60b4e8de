-- ===== src/Identity/Membership/Lifecycle.antt =====
-- What the constructor of `Membership` accepts, and what every method keeps.
use workflow_forge.Base.{
  ◌≤◌, ◌≡◌, ap, ◌>>◌, ◌≢◌, ◌↔◌, true, none, arith, is_some, ok, raise_if, >>=-eq-ok, ok-transport,
  invalid_timestamp, updated_early, not_aware,
}
use workflow_forge.Time.{
  before, raise_if-before, not_before, IsUtc, IsUtcOption, instant, normalize-IsUtc,
  normalize_optional-IsUtcOption, normalize-eq-ok, normalize_optional-eq-ok,
}
use workflow_forge.Identity.Validation.{
  normalize_timestamp, normalize_timestamp_optional, validate_uuid, validate_uuid-ne_zero,
  validate_uuid-eq-ok,
}
use workflow_forge.Identity.Membership.{
  Membership, MembershipStatus, invited, active, suspended, removed, validate_lifecycle_state,
  post_init,
}

-- The check constraint `lifecycle_timestamps_consistent` of the table `memberships`.
abbrev pub HasConsistentDates : MembershipStatus → Membership → Type 0
HasConsistentDates invited m =
    (is_some m.invited_at ≡ true)
    × (m.joined_at ≡ none)
    × (m.suspended_at ≡ none)
    × (m.removed_at ≡ none)
HasConsistentDates active m =
    (is_some m.joined_at ≡ true) × (m.suspended_at ≡ none) × (m.removed_at ≡ none)
HasConsistentDates suspended m =
    (is_some m.joined_at ≡ true) × (is_some m.suspended_at ≡ true) × (m.removed_at ≡ none)
HasConsistentDates removed m = is_some m.removed_at ≡ true

-- A membership that the constructor has validated.
pub record WellFormed (m : Membership) : Type 0 where
  pub id_set : m.id ≢ 0
  pub user_set : m.user_id ≢ 0
  pub organization_set : m.organization_id ≢ 0
  pub created_utc : IsUtc m.created_at
  pub updated_utc : IsUtc m.updated_at
  pub invited_utc : IsUtcOption m.invited_at
  pub joined_utc : IsUtcOption m.joined_at
  pub suspended_utc : IsUtcOption m.suspended_at
  pub removed_utc : IsUtcOption m.removed_at
  pub ordered : instant m.created_at ≤ instant m.updated_at
  pub dated : HasConsistentDates m.status m

-- The lifecycle validation passes exactly if the dates fit the status as the check constraint of the
-- table demands.
pub validate_lifecycle_state_iff :
    (m : Membership) → (validate_lifecycle_state m ≡ ok tt) ↔ HasConsistentDates m.status m
unfolding validate_lifecycle_state
validate_lifecycle_state_iff m = ground arith

-- Whatever the constructor returns is validated: its identifiers are not nil, its times are in UTC
-- and in order, and its dates fit its status.
post_init-WellFormed : (m : Membership) {m' : Membership} → post_init m ≡ ok m' → WellFormed m'
unfolding post_init
post_init-WellFormed m h =
    let (_, id_ok, h) = >>=-eq-ok (validate_uuid m.id) _ h in
    let (_, user_ok, h) = >>=-eq-ok (validate_uuid m.user_id) _ h in
    let (_, organization_ok, h) = >>=-eq-ok (validate_uuid m.organization_id) _ h in
    let (created, created_ok, h) = >>=-eq-ok (normalize_timestamp m.created_at) _ h in
    let (updated, updated_ok, h) = >>=-eq-ok (normalize_timestamp m.updated_at) _ h in
    let (i, i_ok, h) = >>=-eq-ok (normalize_timestamp_optional m.invited_at) _ h in
    let (j, j_ok, h) = >>=-eq-ok (normalize_timestamp_optional m.joined_at) _ h in
    let (s, s_ok, h) = >>=-eq-ok (normalize_timestamp_optional m.suspended_at) _ h in
    let (r, r_ok, h) = >>=-eq-ok (normalize_timestamp_optional m.removed_at) _ h in
    let (_, ordered, h) =
      >>=-eq-ok (raise_if (before updated created) (invalid_timestamp updated_early)) _ h in
    let (_, dated, h) = >>=-eq-ok (validate_lifecycle_state _) _ h in
    ok-transport WellFormed h (record {
      id_set = validate_uuid-eq-ok m.id id_ok;
      user_set = validate_uuid-eq-ok m.user_id user_ok;
      organization_set = validate_uuid-eq-ok m.organization_id organization_ok;
      created_utc = (normalize-eq-ok _ m.created_at created_ok).0;
      updated_utc = (normalize-eq-ok _ m.updated_at updated_ok).0;
      invited_utc = normalize_optional-eq-ok _ m.invited_at i_ok;
      joined_utc = normalize_optional-eq-ok _ m.joined_at j_ok;
      suspended_utc = normalize_optional-eq-ok _ m.suspended_at s_ok;
      removed_utc = normalize_optional-eq-ok _ m.removed_at r_ok;
      ordered = raise_if-before created updated _ ordered;
      dated = (validate_lifecycle_state_iff _).0 dated;
    })

-- The constructor accepts a validated membership and leaves it as it is.
pub post_init-of_WellFormed : (m : Membership) → WellFormed m → post_init m ≡ ok m
unfolding post_init
post_init-of_WellFormed m h =
    simp
      (
        validate_uuid-ne_zero m.id h.id_set,
        validate_uuid-ne_zero m.user_id h.user_set,
        validate_uuid-ne_zero m.organization_id h.organization_set,
        normalize-IsUtc (invalid_timestamp not_aware) h.created_utc,
        normalize-IsUtc (invalid_timestamp not_aware) h.updated_utc,
        normalize_optional-IsUtcOption (invalid_timestamp not_aware) m.invited_at h.invited_utc,
        normalize_optional-IsUtcOption (invalid_timestamp not_aware) m.joined_at h.joined_utc,
        normalize_optional-IsUtcOption (invalid_timestamp not_aware) m.suspended_at h.suspended_utc,
        normalize_optional-IsUtcOption (invalid_timestamp not_aware) m.removed_at h.removed_utc,
        not_before m.created_at m.updated_at h.ordered,
      )
      (ap (λ r. r >> ok m) ((validate_lifecycle_state_iff m).1 h.dated))
