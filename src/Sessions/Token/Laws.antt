-- ===== src/Sessions/Token/Laws.antt =====
-- What the constructor of `RefreshTokenRecord` accepts, and how a token is consumed and replaced.
use workflow_forge.Sessions.Token.{RefreshToken, post_init, is_current}
use workflow_forge.Time.{
  IsUtc, IsUtcOption, DateTime, instant, normalize-IsUtc, normalize_optional-IsUtcOption,
  at_or_before, is_none-normalize_optional, normalize-eq-ok, normalize_optional-eq-ok,
}
use workflow_forge.Base.{
  ◌≡◌, ok, >>=-eq-ok, is_none, invalid_timestamp, ◌<◌, not_aware, false, raise_if, ok-transport,
  arith,
}
use workflow_forge.Identity.Validation.{normalize_timestamp, normalize_timestamp_optional}
use workflow_forge.Sessions.Session.Laws.{
  IsNotBefore, not_at_or_before, not_precedes, raise_if-expiry, raise_if-precedes,
}
use workflow_forge.Sessions.Session.{precedes}

-- A token that the constructor has validated.
pub record WellFormed (x : RefreshToken) : Type 0 where
  pub issued_utc : IsUtc x.issued_at
  pub expires_utc : IsUtc x.expires_at
  pub used_utc : IsUtcOption x.used_at
  pub revoked_utc : IsUtcOption x.revoked_at
  pub lives : instant x.issued_at < instant x.expires_at
  pub used_after : IsNotBefore x.used_at x.issued_at
  pub revoked_after : IsNotBefore x.revoked_at x.issued_at

-- Whatever the constructor returns is validated: its times are in UTC, it lives for some time, and
-- neither its use nor its revocation is before its issue.
pub token-post_init-WellFormed : (x y : RefreshToken) → post_init x ≡ ok y → WellFormed y
unfolding post_init
token-post_init-WellFormed x y h =
    let (issued, issued_ok, h) = >>=-eq-ok (normalize_timestamp x.issued_at) _ h in
    let (expires, expires_ok, h) = >>=-eq-ok (normalize_timestamp x.expires_at) _ h in
    let (used, used_ok, h) = >>=-eq-ok (normalize_timestamp_optional x.used_at) _ h in
    let (revoked, revoked_ok, h) = >>=-eq-ok (normalize_timestamp_optional x.revoked_at) _ h in
    let (_, lives, h) = >>=-eq-ok (raise_if (at_or_before expires issued) _) _ h in
    let (_, use_late, h) = >>=-eq-ok (raise_if (precedes used issued) _) _ h in
    let (_, late, h) = >>=-eq-ok (raise_if (precedes revoked issued) _) _ h in
    ok-transport WellFormed h (record {
      issued_utc = (normalize-eq-ok _ x.issued_at issued_ok).0;
      expires_utc = (normalize-eq-ok _ x.expires_at expires_ok).0;
      used_utc = normalize_optional-eq-ok _ x.used_at used_ok;
      revoked_utc = normalize_optional-eq-ok _ x.revoked_at revoked_ok;
      lives = raise_if-expiry issued expires _ lives;
      used_after = raise_if-precedes used issued _ use_late;
      revoked_after = raise_if-precedes revoked issued _ late;
    })

pub post_init-of_WellFormed : (x : RefreshToken) → WellFormed x → post_init x ≡ ok x
unfolding post_init
post_init-of_WellFormed x h = simp (
  normalize-IsUtc (invalid_timestamp not_aware) h.issued_utc,
  normalize-IsUtc (invalid_timestamp not_aware) h.expires_utc,
  normalize_optional-IsUtcOption (invalid_timestamp not_aware) x.used_at h.used_utc,
  normalize_optional-IsUtcOption (invalid_timestamp not_aware) x.revoked_at h.revoked_utc,
  not_at_or_before x.issued_at x.expires_at h.lives,
  not_precedes x.used_at x.issued_at h.used_after,
  not_precedes x.revoked_at x.issued_at h.revoked_after,
)

-- The fields that the constructor normalizes are the only ones that it changes.
pub post_init-eq-ok :
    (x y : RefreshToken)
    → post_init x ≡ ok y
    → (y.id ≡ x.id)
      × (y.session_id ≡ x.session_id)
      × (y.token_family_id ≡ x.token_family_id)
      × (y.token_digest ≡ x.token_digest)
      × (y.generation ≡ x.generation)
      × (is_none y.used_at ≡ is_none x.used_at)
      × (is_none y.revoked_at ≡ is_none x.revoked_at)
      × (y.replaced_by_token_id ≡ x.replaced_by_token_id)
      × (instant y.expires_at ≡ instant x.expires_at)
unfolding post_init
post_init-eq-ok x y h =
    let (issued, issued_ok, h) = >>=-eq-ok (normalize_timestamp x.issued_at) _ h in
    let (expires, expires_ok, h) = >>=-eq-ok (normalize_timestamp x.expires_at) _ h in
    let (used, used_ok, h) = >>=-eq-ok (normalize_timestamp_optional x.used_at) _ h in
    let (revoked, revoked_ok, h) = >>=-eq-ok (normalize_timestamp_optional x.revoked_at) _ h in
    let (_, lives, h) = >>=-eq-ok (raise_if (at_or_before expires issued) _) _ h in
    let (_, use_late, h) = >>=-eq-ok (raise_if (precedes used issued) _) _ h in
    let (_, late, h) = >>=-eq-ok (raise_if (precedes revoked issued) _) _ h in
    let used_same = is_none-normalize_optional _ x.used_at used used_ok in
    let revoked_same = is_none-normalize_optional _ x.revoked_at revoked revoked_ok in
    let (_, expires_same) = normalize-eq-ok _ x.expires_at expires_ok in ground arith

pub is_current-of_used :
    (x : RefreshToken) → is_none x.used_at ≡ false → (at : DateTime) → is_current x at ≡ ok false
unfolding is_current
is_current-of_used x used at = ground arith
