-- ===== src/Sessions/Claims.antt =====
-- `AccessTokenClaims` and `TokenPair` of
-- packages/application/src/workflowforge_application/identity/tokens.py, and
-- `SessionLifecyclePolicy` of session_lifecycle.py.
use workflow_forge.Base.{
  Result, ℕ, ◌>>◌, ◌>>=◌, raise_if, value_error, ok, ◌==◌, not_positive, not_aware,
  invalid_timestamp, ltb, expiry_not_later, too_long,
}
use workflow_forge.Text.{Text}
use workflow_forge.Time.{DateTime, normalize, at_or_before, instant}
use workflow_forge.Identity.Validation.{normalize_timestamp, validate_uuid}

pub record AccessTokenClaims : Type 0 where
  pub user_id : ℕ
  pub session_id : ℕ
  pub token_id : ℕ
  pub issued_at : DateTime
  pub expires_at : DateTime

-- `__post_init__`
unfoldable pub claims : AccessTokenClaims → Result AccessTokenClaims
claims x = do
  validate_uuid x.user_id
  validate_uuid x.token_id
  issued_at ← normalize_timestamp x.issued_at
  expires_at ← normalize_timestamp x.expires_at
  raise_if (at_or_before expires_at issued_at) (invalid_timestamp expiry_not_later)
  ok (record x { issued_at = issued_at; expires_at = expires_at })

pub record TokenPair : Type 0 where
  pub access_token : Text
  pub refresh_token : Text
  pub session_id : ℕ
  pub access_token_expires_at : DateTime
  pub refresh_token_expires_at : DateTime

-- `__post_init__`
unfoldable pub token_pair : TokenPair → Result TokenPair
token_pair x = do
  access ← normalize_timestamp x.access_token_expires_at
  refresh ← normalize_timestamp x.refresh_token_expires_at
  ok (record x { access_token_expires_at = access; refresh_token_expires_at = refresh })

-- Durations in microseconds.
pub record SessionLifecyclePolicy : Type 0 where
  pub access_token_lifetime : ℕ
  pub refresh_token_lifetime : ℕ
  pub session_lifetime : ℕ

-- `__post_init__`
unfoldable pub lifecycle_policy : SessionLifecyclePolicy → Result SessionLifecyclePolicy
lifecycle_policy p = do
  raise_if (p.access_token_lifetime == 0) (value_error not_positive)
  raise_if (p.refresh_token_lifetime == 0) (value_error not_positive)
  raise_if (p.session_lifetime == 0) (value_error not_positive)
  raise_if (ltb p.session_lifetime p.refresh_token_lifetime) (value_error too_long)
  ok p

-- `_normalize_timestamp` of session_lifecycle.py; a normalized time is given by its instant.
unfoldable pub clock_instant : DateTime → Result ℕ
clock_instant value = do t ← normalize (value_error not_aware) value; ok (instant t)
