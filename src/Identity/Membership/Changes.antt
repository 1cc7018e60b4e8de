-- ===== src/Identity/Membership/Changes.antt =====
-- The methods of `Membership` as changes of a validated membership.
use workflow_forge.Base.{
  ◌≤◌, ◌≡◌, ◌&&◌, ◌||◌, Bool, true, false, not, none, some, arith, if◌then◌else◌, Result, ok, err,
  raise_if, ◌>>=◌, >>=-eq-ok, ok-transport, Error, Result-cases, inl, inr,
}
use workflow_forge.Time.{DateTime, IsUtc, instant, normalize-eq-ok, raise_if-before, before}
use workflow_forge.Identity.Validation.{normalize_timestamp}
use workflow_forge.Identity.Roles.{Role, ◌is_role◌}
use workflow_forge.Identity.Membership.{
  Membership, invited, active, suspended, removed, ◌is_status◌, transition_error,
  mutation_timestamp, activate, suspend, reactivate, remove, change_role,
}
use workflow_forge.Identity.Membership.Lifecycle.{WellFormed, post_init-of_WellFormed}

-- A method call on a membership.
pub data Change : Type 0 where
  activation suspension reactivation removal : DateTime → Change
  role_change : Role → DateTime → Change

abbrev pub apply : Change → Membership → Result Membership
apply (activation now) m = activate m now
apply (suspension now) m = suspend m now
apply (reactivation now) m = reactivate m now
apply (removal now) m = remove m now
apply (role_change role now) m = change_role m role now

pub mutation_timestamp-eq-ok :
    (m : Membership) (now : DateTime) {t : DateTime}
    → mutation_timestamp m now ≡ ok t
    → IsUtc t × (instant m.created_at ≤ instant t)
unfolding mutation_timestamp
mutation_timestamp-eq-ok m now h =
    let (a, a_ok, h) = >>=-eq-ok (normalize_timestamp now) _ h in
    let (_, late, h) = >>=-eq-ok (raise_if (before a m.created_at) _) _ h in
    ok-transport (λ t. IsUtc t × (instant m.created_at ≤ instant t)) h
      ((normalize-eq-ok _ now a_ok).0, raise_if-before m.created_at a _ late)

-- The membership that an accepted change at the time `t` builds.
abbrev pub changed : Change → Membership → DateTime → Membership
changed (activation _) m t = record m {
  status = active;
  updated_at = t;
  joined_at = some t;
  suspended_at = none;
  removed_at = none;
}
changed (suspension _) m t = record m {
  status = suspended;
  updated_at = t;
  suspended_at = some t;
  removed_at = none;
}
changed (reactivation _) m t = record m {
  status = active;
  updated_at = t;
  suspended_at = none;
  removed_at = none;
}
changed (removal _) m t = record m { status = removed; updated_at = t; removed_at = some t }
changed (role_change role _) m t = record m { role = role; updated_at = t }

-- The statuses in which a change takes effect, and those in which it returns the membership itself.
abbrev pub acts : Change → Membership → Bool
acts (activation _) m = m.status is_status invited
acts (suspension _) m = m.status is_status active
acts (reactivation _) m = m.status is_status suspended
acts (removal _) m = not (m.status is_status removed)
acts (role_change role _) m =
    (m.status is_status invited || m.status is_status active) && not (role is_role m.role)

abbrev pub idles : Change → Membership → Bool
idles (activation _) m = m.status is_status active
idles (suspension _) m = false
idles (reactivation _) m = m.status is_status active
idles (removal _) m = m.status is_status removed
idles (role_change role _) m =
    (m.status is_status invited || m.status is_status active) && role is_role m.role

abbrev pub time : Change → DateTime
time (activation now) = now
time (suspension now) = now
time (reactivation now) = now
time (removal now) = now
time (role_change _ now) = now

module _ (m : Membership) (t : DateTime) (h : WellFormed m)
    (u : IsUtc t × (instant m.created_at ≤ instant t)) where
  pub changed-WellFormed : (c : Change) → acts c m ≡ true → WellFormed (changed c m t)
  changed-WellFormed (activation _) e = ground arith
  changed-WellFormed (suspension _) e = ground arith
  changed-WellFormed (reactivation _) e = ground arith
  changed-WellFormed (removal _) e = ground arith
  changed-WellFormed (role_change r _) e = ground arith

  -- Where a change acts, at a good time, it builds the changed membership.
  apply-acts :
      (c : Change)
      → acts c m ≡ true
      → mutation_timestamp m (time c) ≡ ok t
      → apply c m ≡ ok (changed c m t)
  unfolding activate suspend reactivate remove change_role
  apply-acts (activation now) e f = ground (
    arith,
    post_init-of_WellFormed (changed (activation now) m t) (changed-WellFormed (activation now) e),
  )
  apply-acts (suspension now) e f = ground (
    arith,
    post_init-of_WellFormed (changed (suspension now) m t) (changed-WellFormed (suspension now) e),
  )
  apply-acts (reactivation now) e f = ground (
    arith,
    post_init-of_WellFormed (changed (reactivation now) m t)
        (changed-WellFormed (reactivation now) e),
  )
  apply-acts (removal now) e f = ground (
    arith,
    post_init-of_WellFormed (changed (removal now) m t) (changed-WellFormed (removal now) e),
  )
  apply-acts (role_change r now) e f = ground (
    arith,
    post_init-of_WellFormed (changed (role_change r now) m t)
        (changed-WellFormed (role_change r now) e),
  )

-- What a change of a validated membership comes to, with no word of the constructor's checks.
abbrev pub expected : Change → Membership → Result Membership
expected c m =
    if idles c m
    then ok m
    else if acts c m
    then mutation_timestamp m (time c) >>= (λ t. ok (changed c m t))
    else err (transition_error m.status)

apply_on_time :
    (c : Change) (m : Membership) (t : DateTime)
    → mutation_timestamp m (time c) ≡ ok t
    → (acts c m ≡ true → mutation_timestamp m (time c) ≡ ok t → apply c m ≡ ok (changed c m t))
    → apply c m ≡ expected c m
unfolding activate suspend reactivate remove change_role
apply_on_time (activation now) m t e f = ground arith
apply_on_time (suspension now) m t e f = ground arith
apply_on_time (reactivation now) m t e f = ground arith
apply_on_time (removal now) m t e f = ground arith
apply_on_time (role_change r now) m t e f = ground arith

apply_off_time :
    (c : Change) (m : Membership) (x : Error)
    → mutation_timestamp m (time c) ≡ err x
    → apply c m ≡ expected c m
unfolding activate suspend reactivate remove change_role
apply_off_time (activation now) m x e = ground arith
apply_off_time (suspension now) m x e = ground arith
apply_off_time (reactivation now) m x e = ground arith
apply_off_time (removal now) m x e = ground arith
apply_off_time (role_change r now) m x e = ground arith

-- On a validated membership every method returns the membership itself where it idles, the changed
-- one where it acts and the time is aware and not before the creation, and the exception of that
-- time or of the wrong status otherwise: the validation of the new membership never raises.
pub apply-eq-expected : (c : Change) (m : Membership) → WellFormed m → apply c m ≡ expected c m
apply-eq-expected c m h = elim (Result-cases (mutation_timestamp m (time c))) [
  | inl (t, e) ↦ apply_on_time c m t e (apply-acts m t h (mutation_timestamp-eq-ok m (time c) e) c)
  | inr (x, e) ↦ apply_off_time c m x e
]
