-- ===== src/Sessions/Token.antt =====
-- `RefreshTokenRecord` of packages/domain/src/workflowforge_domain/identity/sessions.py. A digest is
-- the number that its 64 hexadecimal digits write.
pub mod Laws
use workflow_forge.Time.{DateTime, at_or_before}
use workflow_forge.Base.{
  ℕ, Result, none, ◌>>=◌, if◌then◌else◌, Bool, Option, ◌>>◌, is_some, raise_if, ok, not, ◌||◌, ◌==◌,
  false, invalid_refresh_token_state, some, not_current, same_digest, invalid_timestamp, ◌+◌,
  expiry_not_later, used_early, revoked_early,
}
use workflow_forge.Identity.Validation.{
  normalize_timestamp, normalize_timestamp_optional, validate_uuid, validate_uuid_optional,
}
use workflow_forge.Sessions.Session.{precedes}

pub record RefreshToken : Type 0 where
  pub id : ℕ
  pub session_id : ℕ
  pub token_family_id : ℕ
  pub token_digest : ℕ
  pub generation : ℕ
  pub issued_at : DateTime
  pub expires_at : DateTime
  pub used_at : Option DateTime
  pub revoked_at : Option DateTime
  pub replaced_by_token_id : Option ℕ

-- `__post_init__`; a generation is a natural number here, so its test always passes.
unfoldable pub post_init : RefreshToken → Result RefreshToken
post_init x = do
  issued_at ← normalize_timestamp x.issued_at
  expires_at ← normalize_timestamp x.expires_at
  used_at ← normalize_timestamp_optional x.used_at
  revoked_at ← normalize_timestamp_optional x.revoked_at
  raise_if (at_or_before expires_at issued_at) (invalid_timestamp expiry_not_later)
  raise_if (precedes used_at issued_at) (invalid_timestamp used_early)
  raise_if (precedes revoked_at issued_at) (invalid_timestamp revoked_early)
  ok (record x {
    issued_at = issued_at;
    expires_at = expires_at;
    used_at = used_at;
    revoked_at = revoked_at;
  })

unfoldable pub issue_initial :
    (id session_id token_family_id token_digest : ℕ)
    → (issued_at expires_at : DateTime) → Result RefreshToken
issue_initial id session_id token_family_id token_digest issued_at expires_at = post_init (record {
  id = id;
  session_id = session_id;
  token_family_id = token_family_id;
  token_digest = token_digest;
  generation = 0;
  issued_at = issued_at;
  expires_at = expires_at;
  used_at = none;
  revoked_at = none;
  replaced_by_token_id = none;
})

unfoldable pub is_expired : RefreshToken → DateTime → Result Bool
is_expired x at = do t ← normalize_timestamp at; ok (at_or_before x.expires_at t)

unfoldable pub is_current : RefreshToken → DateTime → Result Bool
unfolding is_expired
is_current x at =
    if is_some x.used_at || is_some x.revoked_at || is_some x.replaced_by_token_id
    then ok false
    else do expired ← is_expired x at; ok (not expired)

unfoldable pub consume : RefreshToken → (replacement_token_id : ℕ) → DateTime → Result RefreshToken
unfolding is_current
consume x replacement_token_id now = do
  current ← is_current x now
  raise_if (not current) (invalid_refresh_token_state not_current)
  timestamp ← normalize_timestamp now
  post_init
      (record x { used_at = some timestamp; replaced_by_token_id = some replacement_token_id })

unfoldable pub replacement :
    RefreshToken → (id token_digest : ℕ) → (issued_at expires_at : DateTime) → Result RefreshToken
replacement x id token_digest issued_at expires_at = do
  raise_if (token_digest == x.token_digest) (invalid_refresh_token_state same_digest)
  post_init (record x {
    id = id;
    token_digest = token_digest;
    generation = x.generation + 1;
    issued_at = issued_at;
    expires_at = expires_at;
    used_at = none;
    revoked_at = none;
    replaced_by_token_id = none;
  })

unfoldable pub revoke : RefreshToken → DateTime → Result RefreshToken
revoke x now = if is_some x.revoked_at then ok x else do
  timestamp ← normalize_timestamp now
  post_init (record x { revoked_at = some timestamp })

-- `_refresh_token_from_record` of the repository
unfoldable pub token_from_record : RefreshToken → Result RefreshToken
token_from_record row = do
  validate_uuid row.id
  validate_uuid row.session_id
  validate_uuid row.token_family_id
  validate_uuid_optional row.replaced_by_token_id
  post_init row
