-- ===== src/Sessions/Session.antt =====
-- `AuthSession` of packages/domain/src/workflowforge_domain/identity/sessions.py.
pub mod Laws
use workflow_forge.Base.{
  Option, Result, ℕ, ◌>>=◌, if◌then◌else◌, Bool, ◌>>◌, is_some, false, none, ok, some, raise_if,
  not, invalid_session_state, invalid_timestamp, expiry_not_later, mutation_early, updated_early,
  revoked_early,
}
use workflow_forge.Time.{DateTime, at_or_before, before}
use workflow_forge.Identity.Validation.{
  validate_uuid, normalize_timestamp, normalize_timestamp_optional,
}

pub record AuthSession : Type 0 where
  pub id : ℕ
  pub user_id : ℕ
  pub created_at : DateTime
  pub updated_at : DateTime
  pub expires_at : DateTime
  pub revoked_at : Option DateTime

-- `revoked_at is not None and revoked_at < start`, and the like for `used_at`
abbrev pub precedes : Option DateTime → DateTime → Bool
precedes none start = false
precedes (some d) start = before d start

-- `__post_init__`
unfoldable pub post_init : AuthSession → Result AuthSession
post_init x = do
  validate_uuid x.user_id
  created_at ← normalize_timestamp x.created_at
  updated_at ← normalize_timestamp x.updated_at
  expires_at ← normalize_timestamp x.expires_at
  revoked_at ← normalize_timestamp_optional x.revoked_at
  raise_if (at_or_before expires_at created_at) (invalid_timestamp expiry_not_later)
  raise_if (before updated_at created_at) (invalid_timestamp updated_early)
  raise_if (precedes revoked_at created_at) (invalid_timestamp revoked_early)
  ok (record x {
    created_at = created_at;
    updated_at = updated_at;
    expires_at = expires_at;
    revoked_at = revoked_at;
  })

unfoldable pub create : (id user_id : ℕ) → (now expires_at : DateTime) → Result AuthSession
create id user_id now expires_at = do
  timestamp ← normalize_timestamp now
  post_init (record {
    id = id;
    user_id = user_id;
    created_at = timestamp;
    updated_at = timestamp;
    expires_at = expires_at;
    revoked_at = none;
  })

unfoldable pub is_expired : AuthSession → DateTime → Result Bool
is_expired x at = do t ← normalize_timestamp at; ok (at_or_before x.expires_at t)

unfoldable pub is_active : AuthSession → DateTime → Result Bool
unfolding is_expired
is_active x at =
    if is_some x.revoked_at then ok false else do expired ← is_expired x at; ok (not expired)

-- `_mutation_timestamp`
unfoldable pub mutation_timestamp : DateTime → DateTime → Result DateTime
mutation_timestamp value created_at = do
  timestamp ← normalize_timestamp value
  raise_if (before timestamp created_at) (invalid_session_state mutation_early)
  ok timestamp

unfoldable pub revoke : AuthSession → DateTime → Result AuthSession
unfolding mutation_timestamp post_init
revoke x now = if is_some x.revoked_at then ok x else do
  timestamp ← mutation_timestamp now x.created_at
  post_init (record x { updated_at = timestamp; revoked_at = some timestamp })

-- `_auth_session_from_record` of the repository: a row is read through the constructors.
unfoldable pub session_from_record : AuthSession → Result AuthSession
session_from_record row = do validate_uuid row.id; post_init row
