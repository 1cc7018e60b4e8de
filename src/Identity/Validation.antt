-- ===== src/Identity/Validation.antt =====
-- The validators at the end of
-- packages/domain/src/workflowforge_domain/identity/entities.py.
use workflow_forge.Base.{
  ℕ, ◌≡◌, ◌≢◌, Option, arith, ltb, ◌==◌, length, Result, ok, raise_if, ◌>>◌, invalid_identifier,
  invalid_timestamp, invalid_display_name, invalid_organization_name, nil_uuid, not_aware, required,
  too_long, some, none,
}
use workflow_forge.Time.{DateTime, normalize, normalize_optional}
use workflow_forge.Text.{Text, squeeze}
use workflow_forge.Text.Split.{squeeze_idem}

abbrev pub display_name_min_length : ℕ
display_name_min_length = 1

abbrev pub display_name_max_length : ℕ
display_name_max_length = 120

abbrev pub organization_name_min_length : ℕ
organization_name_min_length = 1

abbrev pub organization_name_max_length : ℕ
organization_name_max_length = 160

-- A UUID is the number `value.int`.
unfoldable pub validate_uuid : ℕ → Result (Unit {0})
validate_uuid value = raise_if (value == 0) (invalid_identifier nil_uuid)

-- The construction of a typed identifier, such as `SessionId(value)`.
unfoldable pub typed_id : ℕ → Result ℕ
unfolding validate_uuid
typed_id value = do validate_uuid value; ok value

unfoldable pub validate_uuid_optional : Option ℕ → Result (Unit {0})
validate_uuid_optional none = ok tt
validate_uuid_optional (some value) = validate_uuid value

abbrev pub normalize_timestamp : DateTime → Result DateTime
normalize_timestamp = normalize (invalid_timestamp not_aware)

-- `normalize_timestamp(value) if value is not None else None`
abbrev pub normalize_timestamp_optional : Option DateTime → Result (Option DateTime)
normalize_timestamp_optional = normalize_optional (invalid_timestamp not_aware)

unfoldable pub normalize_display_name : Text → Result Text
normalize_display_name value = do
  let normalized = squeeze value
  raise_if (ltb (length normalized) display_name_min_length) (invalid_display_name required)
  raise_if (ltb display_name_max_length (length normalized)) (invalid_display_name too_long)
  ok normalized

unfoldable pub normalize_organization_name : Text → Result Text
normalize_organization_name value = do
  let normalized = squeeze value
  raise_if (ltb (length normalized) organization_name_min_length)
      (invalid_organization_name required)
  raise_if (ltb organization_name_max_length (length normalized))
      (invalid_organization_name too_long)
  ok normalized

pub validate_uuid-ne_zero : (value : ℕ) → value ≢ 0 → validate_uuid value ≡ ok tt
unfolding validate_uuid
validate_uuid-ne_zero value h = ground arith

pub validate_uuid-eq-ok : (value : ℕ) {u : Unit {0}} → validate_uuid value ≡ ok u → value ≢ 0
unfolding validate_uuid
validate_uuid-eq-ok value h = ground arith

-- Normalizing a display name that was normalized gives it back.
pub normalize_display_name_idem :
    (s : Text) {n : Text} → normalize_display_name s ≡ ok n → normalize_display_name n ≡ ok n
unfolding normalize_display_name
normalize_display_name_idem s h = ground (arith, squeeze_idem s)

pub normalize_organization_name_idem :
    (s : Text) {n : Text}
    → normalize_organization_name s ≡ ok n
    → normalize_organization_name n ≡ ok n
unfolding normalize_organization_name
normalize_organization_name_idem s h = ground (arith, squeeze_idem s)
