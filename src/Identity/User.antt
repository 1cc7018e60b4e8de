-- ===== src/Identity/User.antt =====
-- `User` of packages/domain/src/workflowforge_domain/identity/entities.py.
pub mod Laws
use workflow_forge.Time.{DateTime, before}
use workflow_forge.Text.{Text, text_eq}
use workflow_forge.Identity.Email.{EmailAddress, same_email}
use workflow_forge.Base.{
  ℕ, Result, if◌then◌else◌, Bool, Option, not, ok, ◌>>=◌, ◌>>◌, true, false, none, raise_if, some,
  invalid_timestamp, mutation_early, updated_early, ◌&&◌, is_some, surplus_timestamp, is_none,
  missing_timestamp,
}
use workflow_forge.Identity.Validation.{
  normalize_timestamp, validate_uuid, normalize_display_name, normalize_timestamp_optional,
}

pub record User : Type 0 where
  pub id : ℕ
  pub email : EmailAddress
  pub display_name : Text
  pub is_active : Bool
  pub created_at : DateTime
  pub updated_at : DateTime
  pub disabled_at : Option DateTime

-- `__post_init__`
unfoldable pub post_init : User → Result User
post_init x = do
  validate_uuid x.id
  display_name ← normalize_display_name x.display_name
  created_at ← normalize_timestamp x.created_at
  updated_at ← normalize_timestamp x.updated_at
  disabled_at ← normalize_timestamp_optional x.disabled_at
  raise_if (before updated_at created_at) (invalid_timestamp updated_early)
  raise_if (x.is_active && is_some disabled_at) (invalid_timestamp surplus_timestamp)
  raise_if (not x.is_active && is_none disabled_at) (invalid_timestamp missing_timestamp)
  ok (record x {
    display_name = display_name;
    created_at = created_at;
    updated_at = updated_at;
    disabled_at = disabled_at;
  })

unfoldable pub mutation_timestamp : User → DateTime → Result DateTime
mutation_timestamp x value = do
  timestamp ← normalize_timestamp value
  raise_if (before timestamp x.created_at) (invalid_timestamp mutation_early)
  ok timestamp

unfoldable pub create : (id : ℕ) → EmailAddress → Text → DateTime → Result User
create id email display_name now = do
  timestamp ← normalize_timestamp now
  post_init (record {
    id = id;
    email = email;
    display_name = display_name;
    is_active = true;
    created_at = timestamp;
    updated_at = timestamp;
    disabled_at = none;
  })

unfoldable pub disable : User → DateTime → Result User
disable x now = if not x.is_active then ok x else do
  timestamp ← mutation_timestamp x now
  post_init (record x { is_active = false; updated_at = timestamp; disabled_at = some timestamp })

unfoldable pub reactivate : User → DateTime → Result User
reactivate x now = if x.is_active then ok x else do
  timestamp ← mutation_timestamp x now
  post_init (record x { is_active = true; updated_at = timestamp; disabled_at = none })

unfoldable pub rename : User → Text → DateTime → Result User
rename x name now = do
  normalized ← normalize_display_name name
  if text_eq normalized x.display_name then ok x else do
    timestamp ← mutation_timestamp x now
    post_init (record x { display_name = normalized; updated_at = timestamp })

unfoldable pub change_email : User → EmailAddress → DateTime → Result User
change_email x email now = if same_email email x.email then ok x else do
  timestamp ← mutation_timestamp x now
  post_init (record x { email = email; updated_at = timestamp })
