-- ===== src/Batches/Batch.antt =====
-- `Batch` and `BatchDocument` of packages/domain/src/workflowforge_domain/batches.py.
pub mod Laws
use workflow_forge.Base.{
  Bool, Option, Result, ℕ, ◌>>=◌, some, ok, ◌>>◌, raise_if, true, if◌then◌else◌, batch_error, ◌+◌,
  false, archived_batch_mutation, ◌==◌, none, err, is_empty, required, nil_uuid, missing_archive,
  not_positive, not_aware, ltb, surplus_archive, length, too_long,
}
use workflow_forge.Time.{DateTime, normalize}
use workflow_forge.Text.{Text, squeeze}

pub data BatchStatus : Type 0 where
  open_ closed archived : BatchStatus

-- `status is BatchStatus.ARCHIVED`
abbrev pub is_archived : BatchStatus → Bool
is_archived archived = true
is_archived _ = false

pub record Batch : Type 0 where
  pub id : ℕ
  pub organization_id : ℕ
  pub name : Text
  pub description : Option Text
  pub status : BatchStatus
  pub external_reference : Option Text
  pub created_at : DateTime
  pub created_by_user_id : ℕ
  pub updated_at : DateTime
  pub updated_by_user_id : ℕ
  pub archived_at : Option DateTime
  pub archived_by_user_id : Option ℕ
  pub lock_version : ℕ

-- `_timestamp` and `_validate_uuid`
abbrev pub timestamp : DateTime → Result DateTime
timestamp = normalize (batch_error not_aware)

abbrev pub validate_batch_uuid : ℕ → Result (Unit {0})
validate_batch_uuid value = raise_if (value == 0) (batch_error nil_uuid)

-- `_bounded_text` of a value that is there, where it is required and where it is optional
unfoldable pub bounded_text : Text → (max_length : ℕ) → Result Text
bounded_text value max_length = do
  let normalized = squeeze value
  raise_if (is_empty normalized) (batch_error required)
  raise_if (ltb max_length (length normalized)) (batch_error too_long)
  ok normalized

unfoldable pub bounded_text_optional : Option Text → (max_length : ℕ) → Result (Option Text)
bounded_text_optional none max_length = ok none
bounded_text_optional (some value) max_length =
    let normalized = squeeze value in
    if is_empty normalized then ok none else do
      raise_if (ltb max_length (length normalized)) (batch_error too_long)
      ok (some normalized)

-- The last test of `__post_init__`, which normalizes the time of an archived batch.
unfoldable pub archive_metadata :
    BatchStatus → Option DateTime → Option ℕ → Result (Option DateTime)
archive_metadata archived (some at) (some user) = do at' ← timestamp at; ok (some at')
archive_metadata archived _ _ = err (batch_error missing_archive)
archive_metadata _ none none = ok none
archive_metadata _ _ _ = err (batch_error surplus_archive)

-- `__post_init__`
unfoldable pub post_init : Batch → Result Batch
post_init x = do
  validate_batch_uuid x.organization_id
  validate_batch_uuid x.created_by_user_id
  validate_batch_uuid x.updated_by_user_id
  name ← bounded_text x.name 255
  description ← bounded_text_optional x.description 2000
  external_reference ← bounded_text_optional x.external_reference 255
  created_at ← timestamp x.created_at
  updated_at ← timestamp x.updated_at
  raise_if (x.lock_version == 0) (batch_error not_positive)
  archived_at ← archive_metadata x.status x.archived_at x.archived_by_user_id
  ok (record x {
    name = name;
    description = description;
    external_reference = external_reference;
    created_at = created_at;
    updated_at = updated_at;
    archived_at = archived_at;
  })

unfoldable pub create :
    (id organization_id : ℕ)
    → (name : Text) → (description external_reference : Option Text) → (created_by_user_id : ℕ)
    → (now : DateTime) → Result Batch
create id organization_id name description external_reference created_by_user_id now = do
  at ← timestamp now
  post_init (record {
    id = id;
    organization_id = organization_id;
    name = name;
    description = description;
    status = open_;
    external_reference = external_reference;
    created_at = at;
    created_by_user_id = created_by_user_id;
    updated_at = at;
    updated_by_user_id = created_by_user_id;
    archived_at = none;
    archived_by_user_id = none;
    lock_version = 1;
  })

-- `_ensure_mutable`
unfoldable pub ensure_mutable : Batch → Result (Unit {0})
ensure_mutable x = raise_if (is_archived x.status) archived_batch_mutation

-- `self.name if name is None else name`
abbrev pub given {ℓ} : {A : Type ℓ} → Option A → A → A
given none old = old
given (some new) old = new

unfoldable pub update :
    Batch
    → (name description external_reference : Option Text) → (actor_user_id : ℕ) → (now : DateTime)
    → Result Batch
update x name description external_reference actor_user_id now = do
  ensure_mutable x
  validate_batch_uuid actor_user_id
  at ← timestamp now
  post_init (record x {
    name = given name x.name;
    description = description;
    external_reference = external_reference;
    updated_at = at;
    updated_by_user_id = actor_user_id;
    lock_version = x.lock_version + 1;
  })

unfoldable pub archive : Batch → (actor_user_id : ℕ) → (now : DateTime) → Result Batch
archive x actor_user_id now = do
  ensure_mutable x
  at ← timestamp now
  post_init (record x {
    status = archived;
    archived_at = some at;
    archived_by_user_id = some actor_user_id;
    updated_at = at;
    updated_by_user_id = actor_user_id;
    lock_version = x.lock_version + 1;
  })

pub record BatchDocument : Type 0 where
  pub id : ℕ
  pub organization_id : ℕ
  pub batch_id : ℕ
  pub document_id : ℕ
  pub added_at : DateTime
  pub added_by_user_id : ℕ

-- `BatchDocument.__post_init__`
unfoldable pub batch_document : BatchDocument → Result BatchDocument
batch_document x = do
  validate_batch_uuid x.organization_id
  validate_batch_uuid x.added_by_user_id
  added_at ← timestamp x.added_at
  ok (record x { added_at = added_at })
