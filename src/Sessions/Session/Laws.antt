-- ===== src/Sessions/Session/Laws.antt =====
-- What the constructor of `AuthSession` accepts, and what `revoke` returns.
use workflow_forge.Sessions.Session.{post_init, revoke, AuthSession, precedes, mutation_timestamp}
use workflow_forge.Time.{
  DateTime, instant, IsUtc, normalize, utc, at_or_before, IsUtcOption, normalize-IsUtc, before,
  normalize_optional-IsUtcOption, not_before, normalize-eq-ok, normalize_optional-eq-ok,
  raise_if-before, is_none-normalize_optional,
}
use workflow_forge.Base.{
  Option, some, ◌≡◌, ℕ, ◌≢◌, Error, ok, raise_if, ◌≤◌, ◌<◌, false, >>=-eq-ok, none, arith,
  if◌then◌else◌, refl, is_some, invalid_timestamp, not_aware, ok-transport, is_none, Bool-cases,
  inl, inr,
}
use workflow_forge.Identity.Validation.{
  validate_uuid-ne_zero, validate_uuid, normalize_timestamp, normalize_timestamp_optional,
  validate_uuid-eq-ok,
}

abbrev pub IsNotBefore : Option DateTime → DateTime → Type 0
IsNotBefore none start = Unit
IsNotBefore (some d) start = instant start ≤ instant d

-- A session that the constructor has validated.
pub record WellFormed (x : AuthSession) : Type 0 where
  pub user_set : x.user_id ≢ 0
  pub created_utc : IsUtc x.created_at
  pub updated_utc : IsUtc x.updated_at
  pub expires_utc : IsUtc x.expires_at
  pub revoked_utc : IsUtcOption x.revoked_at
  pub lives : instant x.created_at < instant x.expires_at
  pub ordered : instant x.created_at ≤ instant x.updated_at
  pub revoked_after : IsNotBefore x.revoked_at x.created_at

pub not_precedes :
    (d : Option DateTime) (start : DateTime) → IsNotBefore d start → precedes d start ≡ false
not_precedes none start h = refl
not_precedes (some d) start h = ground arith

pub raise_if-precedes :
    (d : Option DateTime) (start : DateTime) (e : Error) {u : Unit {0}}
    → raise_if (precedes d start) e ≡ ok u
    → IsNotBefore d start
raise_if-precedes none start e h = tt
raise_if-precedes (some d) start e h = ground arith

pub raise_if-expiry :
    (a b : DateTime) (e : Error) {u : Unit {0}}
    → raise_if (at_or_before b a) e ≡ ok u
    → instant a < instant b
raise_if-expiry a b e h = ground arith

pub not_at_or_before : (a b : DateTime) → instant a < instant b → at_or_before b a ≡ false
not_at_or_before a b h = ground arith

-- Whatever the constructor returns is validated: its user is not nil, its times are in UTC, it lives
-- for some time, and neither its update nor its revocation is before its creation.
pub session-post_init-WellFormed : (x y : AuthSession) → post_init x ≡ ok y → WellFormed y
unfolding post_init
session-post_init-WellFormed x y h =
    let (_, user_ok, h) = >>=-eq-ok (validate_uuid x.user_id) _ h in
    let (created, created_ok, h) = >>=-eq-ok (normalize_timestamp x.created_at) _ h in
    let (updated, updated_ok, h) = >>=-eq-ok (normalize_timestamp x.updated_at) _ h in
    let (expires, expires_ok, h) = >>=-eq-ok (normalize_timestamp x.expires_at) _ h in
    let (revoked, revoked_ok, h) = >>=-eq-ok (normalize_timestamp_optional x.revoked_at) _ h in
    let (_, lives, h) = >>=-eq-ok (raise_if (at_or_before expires created) _) _ h in
    let (_, ordered, h) = >>=-eq-ok (raise_if (before updated created) _) _ h in
    let (_, late, h) = >>=-eq-ok (raise_if (precedes revoked created) _) _ h in
    ok-transport WellFormed h (record {
      user_set = validate_uuid-eq-ok x.user_id user_ok;
      created_utc = (normalize-eq-ok _ x.created_at created_ok).0;
      updated_utc = (normalize-eq-ok _ x.updated_at updated_ok).0;
      expires_utc = (normalize-eq-ok _ x.expires_at expires_ok).0;
      revoked_utc = normalize_optional-eq-ok _ x.revoked_at revoked_ok;
      lives = raise_if-expiry created expires _ lives;
      ordered = raise_if-before created updated _ ordered;
      revoked_after = raise_if-precedes revoked created _ late;
    })

pub post_init-of_WellFormed : (x : AuthSession) → WellFormed x → post_init x ≡ ok x
unfolding post_init
post_init-of_WellFormed x h = simp (
  validate_uuid-ne_zero x.user_id h.user_set,
  normalize-IsUtc (invalid_timestamp not_aware) h.created_utc,
  normalize-IsUtc (invalid_timestamp not_aware) h.updated_utc,
  normalize-IsUtc (invalid_timestamp not_aware) h.expires_utc,
  normalize_optional-IsUtcOption (invalid_timestamp not_aware) x.revoked_at h.revoked_utc,
  not_at_or_before x.created_at x.expires_at h.lives,
  not_before x.created_at x.updated_at h.ordered,
  not_precedes x.revoked_at x.created_at h.revoked_after,
)

pub revoked-WellFormed :
    (x : AuthSession) (t : ℕ)
    → WellFormed x
    → instant x.created_at ≤ t
    → WellFormed (record x { updated_at = utc t; revoked_at = some (utc t) })
revoked-WellFormed x t h late = ground arith

-- Revoking a validated session at a UTC time that is not before its creation sets the revocation
-- and update times, and nothing else; a session that is revoked already is returned as it is.
pub revoke-of_WellFormed :
    (x : AuthSession) (t : ℕ)
    → WellFormed x
    → instant x.created_at ≤ t
    → revoke x (utc t) ≡ (
        if is_some x.revoked_at
        then ok x
        else ok (record x { updated_at = utc t; revoked_at = some (utc t) }))
unfolding revoke mutation_timestamp normalize
revoke-of_WellFormed x t h late = ground (
  arith,
  post_init-of_WellFormed (record x { updated_at = utc t; revoked_at = some (utc t) })
      (revoked-WellFormed x t h late),
)

-- The constructor keeps the identifiers and whether the session is revoked.
pub session-post_init-eq-ok :
    (x y : AuthSession)
    → post_init x ≡ ok y
    → (y.id ≡ x.id)
      × (y.user_id ≡ x.user_id)
      × (is_none y.revoked_at ≡ is_none x.revoked_at)
      × (instant y.expires_at ≡ instant x.expires_at)
unfolding post_init
session-post_init-eq-ok x y h =
    let (_, _, h) = >>=-eq-ok (validate_uuid x.user_id) _ h in
    let (created, _, h) = >>=-eq-ok (normalize_timestamp x.created_at) _ h in
    let (updated, _, h) = >>=-eq-ok (normalize_timestamp x.updated_at) _ h in
    let (expires, expires_ok, h) = >>=-eq-ok (normalize_timestamp x.expires_at) _ h in
    let (revoked, revoked_ok, h) = >>=-eq-ok (normalize_timestamp_optional x.revoked_at) _ h in
    let (_, _, h) = >>=-eq-ok (raise_if (at_or_before expires created) _) _ h in
    let (_, _, h) = >>=-eq-ok (raise_if (before updated created) _) _ h in
    let (_, _, h) = >>=-eq-ok (raise_if (precedes revoked created) _) _ h in
    let same = is_none-normalize_optional _ x.revoked_at revoked revoked_ok in
    let (_, expires_same) = normalize-eq-ok _ x.expires_at expires_ok in ground arith

-- What `revoke` returns is revoked, and is the same session.
pub revoke-eq-ok :
    (x y : AuthSession) (at : DateTime)
    → revoke x at ≡ ok y
    → (y.id ≡ x.id) × (is_none y.revoked_at ≡ false)
unfolding revoke
revoke-eq-ok x y at h = elim (Bool-cases (is_some x.revoked_at)) [
  | inl r ↦ ground arith
  | inr r ↦
      let (t, _, k) =
        >>=-eq-ok (mutation_timestamp at x.created_at)
          (λ t. post_init (record x { updated_at = t; revoked_at = some t })) (cc) in
      let (i, _, n, _) = session-post_init-eq-ok _ y k in (i, n)
]
