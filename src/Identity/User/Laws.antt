-- ===== src/Identity/User/Laws.antt =====
-- What the constructor of `User` accepts, and what its methods return.
use workflow_forge.Identity.User.{post_init, User, mutation_timestamp, disable, reactivate}
use workflow_forge.Base.{
  ◌≡◌, ◌≢◌, Option, ok, raise_if, false, ◌&&◌, >>=-eq-ok, true, some, none, if◌then◌else◌, is_some,
  invalid_timestamp, ◌≤◌, arith, is_none, not_aware, surplus_timestamp, updated_early, not,
  ok-transport, missing_timestamp, ◌>>=◌,
}
use workflow_forge.Time.{
  DateTime, IsUtc, normalize-IsUtc, IsUtcOption, instant, before, normalize_optional-IsUtcOption,
  not_before, normalize-eq-ok, raise_if-before, normalize_optional-eq-ok,
}
use workflow_forge.Identity.Validation.{
  normalize_display_name, validate_uuid-ne_zero, validate_uuid, normalize_timestamp,
  normalize_timestamp_optional, validate_uuid-eq-ok, normalize_display_name_idem,
}

-- A user that the constructor has validated.
pub record WellFormed (x : User) : Type 0 where
  pub id_set : x.id ≢ 0
  pub name_normal : normalize_display_name x.display_name ≡ ok x.display_name
  pub created_utc : IsUtc x.created_at
  pub updated_utc : IsUtc x.updated_at
  pub disabled_at_utc : IsUtcOption x.disabled_at
  pub ordered : instant x.created_at ≤ instant x.updated_at
  pub dated : is_none x.disabled_at ≡ x.is_active

dated_of_checks :
    (x : User) (d : Option DateTime) {u v : Unit {0}}
    → raise_if (x.is_active && is_some d) (invalid_timestamp surplus_timestamp) ≡ ok u
    → raise_if (not x.is_active && is_none d) (invalid_timestamp missing_timestamp) ≡ ok v
    → is_none d ≡ x.is_active
dated_of_checks x d h k = ground arith

-- Whatever the constructor returns is validated: its times are in UTC and in order, its name is
-- normal, and it has a disabling time exactly if it is not active.
pub user-post_init-WellFormed : (x y : User) → post_init x ≡ ok y → WellFormed y
unfolding post_init
user-post_init-WellFormed x y h =
    let (_, id_ok, h) = >>=-eq-ok (validate_uuid x.id) _ h in
    let (n, n_ok, h) = >>=-eq-ok (normalize_display_name x.display_name) _ h in
    let (created, created_ok, h) = >>=-eq-ok (normalize_timestamp x.created_at) _ h in
    let (updated, updated_ok, h) = >>=-eq-ok (normalize_timestamp x.updated_at) _ h in
    let (off, off_ok, h) = >>=-eq-ok (normalize_timestamp_optional x.disabled_at) _ h in
    let (_, ordered, h) =
      >>=-eq-ok (raise_if (before updated created) (invalid_timestamp updated_early)) _ h in
    let (_, no_surplus, h) =
      >>=-eq-ok (raise_if (x.is_active && is_some off) (invalid_timestamp surplus_timestamp)) _ h in
    let (_, none_missing, h) =
      >>=-eq-ok (raise_if (not x.is_active && is_none off) (invalid_timestamp missing_timestamp)) _
        h in
    ok-transport WellFormed h (record {
      id_set = validate_uuid-eq-ok x.id id_ok;
      name_normal = normalize_display_name_idem x.display_name n_ok;
      created_utc = (normalize-eq-ok _ x.created_at created_ok).0;
      updated_utc = (normalize-eq-ok _ x.updated_at updated_ok).0;
      disabled_at_utc = normalize_optional-eq-ok _ x.disabled_at off_ok;
      ordered = raise_if-before created updated _ ordered;
      dated = dated_of_checks x off no_surplus none_missing;
    })

pub post_init-of_WellFormed : (x : User) → WellFormed x → post_init x ≡ ok x
unfolding post_init
post_init-of_WellFormed x h =
    simp
      (
        validate_uuid-ne_zero x.id h.id_set,
        h.name_normal,
        normalize-IsUtc (invalid_timestamp not_aware) h.created_utc,
        normalize-IsUtc (invalid_timestamp not_aware) h.updated_utc,
        normalize_optional-IsUtcOption (invalid_timestamp not_aware) x.disabled_at
            h.disabled_at_utc,
        not_before x.created_at x.updated_at h.ordered,
      )
      (ground arith)

module _ (x : User) (h : WellFormed x) (now : DateTime) (t : DateTime)
    (e : mutation_timestamp x now ≡ ok t) where
  at_time : IsUtc t × (instant x.created_at ≤ instant t)
  unfolding mutation_timestamp
  at_time =
      let (a, a_ok, h) = >>=-eq-ok (normalize_timestamp now) _ e in
      let (_, late, h) = >>=-eq-ok (raise_if (before a x.created_at) _) _ h in
      ok-transport (λ t. IsUtc t × (instant x.created_at ≤ instant t)) h
        ((normalize-eq-ok _ now a_ok).0, raise_if-before x.created_at a _ late)

  off-WellFormed : WellFormed (record x { is_active = false; updated_at = t; disabled_at = some t })
  off-WellFormed = ground (arith, at_time)

  on-WellFormed : WellFormed (record x { is_active = true; updated_at = t; disabled_at = none })
  on-WellFormed = ground (arith, at_time)

  pub disable_lem : disable x now ≡ (
      if x.is_active
      then ok (record x { is_active = false; updated_at = t; disabled_at = some t })
      else ok x)
  unfolding disable
  disable_lem = ground (
    arith,
    post_init-of_WellFormed (record x { is_active = false; updated_at = t; disabled_at = some t })
        off-WellFormed,
  )

  pub reactivate_lem : reactivate x now ≡ (
      if x.is_active
      then ok x
      else ok (record x { is_active = true; updated_at = t; disabled_at = none }))
  unfolding reactivate
  reactivate_lem = ground (
    arith,
    post_init-of_WellFormed (record x { is_active = true; updated_at = t; disabled_at = none })
        on-WellFormed,
  )

-- From a validated active user, disable and then reactivate, at two good times, give the same
-- user but for its update time: every other field is as before.
pub disable-reactivate :
    (x : User) (now later : DateTime) {t u : DateTime}
    → WellFormed x
    → x.is_active ≡ true
    → mutation_timestamp x now ≡ ok t
    → mutation_timestamp x later ≡ ok u
    → (disable x now >>= λ y. reactivate y later) ≡ ok (record x { updated_at = u })
unfolding mutation_timestamp
disable-reactivate x now later {t} {u} h a e f = ground (
  arith,
  disable_lem x h now t e,
  reactivate_lem (record x { is_active = false; updated_at = t; disabled_at = some t })
      (off-WellFormed x h now t e) later u f,
)
