-- ===== src/Identity/Organization.antt =====
-- `Organization` of packages/domain/src/workflowforge_domain/identity/entities.py.
pub mod Laws
use workflow_forge.Time.{DateTime, before}
use workflow_forge.Text.{Text, text_eq}
use workflow_forge.Base.{
  ℕ, Result, if◌then◌else◌, Bool, Option, not, ok, ◌>>=◌, ◌>>◌, true, false, none, raise_if, some,
  invalid_timestamp, mutation_early, updated_early, ◌&&◌, is_some, surplus_timestamp, is_none,
  missing_timestamp,
}
use workflow_forge.Identity.Validation.{
  normalize_timestamp, validate_uuid, normalize_organization_name, normalize_timestamp_optional,
}

pub record Organization : Type 0 where
  pub id : ℕ
  pub name : Text
  pub slug : Text  -- the value of an `OrganizationSlug`
  pub is_active : Bool
  pub created_at : DateTime
  pub updated_at : DateTime
  pub deactivated_at : Option DateTime

-- `__post_init__`
unfoldable pub post_init : Organization → Result Organization
post_init x = do
  validate_uuid x.id
  name ← normalize_organization_name x.name
  created_at ← normalize_timestamp x.created_at
  updated_at ← normalize_timestamp x.updated_at
  deactivated_at ← normalize_timestamp_optional x.deactivated_at
  raise_if (before updated_at created_at) (invalid_timestamp updated_early)
  raise_if (x.is_active && is_some deactivated_at) (invalid_timestamp surplus_timestamp)
  raise_if (not x.is_active && is_none deactivated_at) (invalid_timestamp missing_timestamp)
  ok (record x {
    name = name;
    created_at = created_at;
    updated_at = updated_at;
    deactivated_at = deactivated_at;
  })

unfoldable pub mutation_timestamp : Organization → DateTime → Result DateTime
mutation_timestamp x value = do
  timestamp ← normalize_timestamp value
  raise_if (before timestamp x.created_at) (invalid_timestamp mutation_early)
  ok timestamp

unfoldable pub create : (id : ℕ) → Text → Text → DateTime → Result Organization
create id name slug now = do
  timestamp ← normalize_timestamp now
  post_init (record {
    id = id;
    name = name;
    slug = slug;
    is_active = true;
    created_at = timestamp;
    updated_at = timestamp;
    deactivated_at = none;
  })

unfoldable pub deactivate : Organization → DateTime → Result Organization
deactivate x now = if not x.is_active then ok x else do
  timestamp ← mutation_timestamp x now
  post_init
      (record x { is_active = false; updated_at = timestamp; deactivated_at = some timestamp })

unfoldable pub reactivate : Organization → DateTime → Result Organization
reactivate x now = if x.is_active then ok x else do
  timestamp ← mutation_timestamp x now
  post_init (record x { is_active = true; updated_at = timestamp; deactivated_at = none })

unfoldable pub rename : Organization → Text → DateTime → Result Organization
rename x new_name now = do
  normalized ← normalize_organization_name new_name
  if text_eq normalized x.name then ok x else do
    timestamp ← mutation_timestamp x now
    post_init (record x { name = normalized; updated_at = timestamp })
