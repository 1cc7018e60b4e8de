-- ===== src/Documents/Document.antt =====
-- The `Document` aggregate of packages/domain/src/workflowforge_domain/documents.py.
pub mod Laws
pub mod Lifecycle
use workflow_forge.Documents.Naming.{
  Unicode, normalize_original_filename, normalize_source_reference,
}
use workflow_forge.Documents.Keys.{validate_document_uuid}
use workflow_forge.Documents.Version.{
  DocumentVersion, DocumentArtifact, DocumentStorageState, document_timestamp,
}
use workflow_forge.Base.{
  Bool, Option, Result, ℕ, true, false, ◌>>◌, raise_if, ok, invalid_document_transition, not, ◌>>=◌,
  some, archived_document_mutation, ◌==◌, err, document_error, missing_archive, none, not_aware,
  mutation_early, ◌||◌, wrong_document, wrong_tenant, updated_early, ◌+◌, surplus_archive,
  not_positive,
}
use workflow_forge.Time.{DateTime, normalize_optional, before}
use workflow_forge.Text.{Text}

pub data DocumentStatus : Type 0 where
  registered stored failed archived : DocumentStatus

pub data DocumentSourceType : Type 0 where
  upload import system : DocumentSourceType

pub record Document : Type 0 where
  pub id : ℕ
  pub organization_id : ℕ
  pub display_filename : Text
  pub source_type : DocumentSourceType
  pub source_reference : Option Text
  pub status : DocumentStatus
  pub current_version_id : ℕ
  pub archived_at : Option DateTime
  pub archived_by_user_id : Option ℕ
  pub created_at : DateTime
  pub created_by_user_id : ℕ
  pub updated_at : DateTime
  pub updated_by_user_id : ℕ
  pub lock_version : ℕ

-- `status is DocumentStatus.ARCHIVED`, and `status not in {REGISTERED, FAILED}`
abbrev pub is_archived : DocumentStatus → Bool
is_archived archived = true
is_archived _ = false

abbrev pub is_settled : DocumentStatus → Bool
is_settled registered = false
is_settled failed = false
is_settled _ = true

-- The last test of `__post_init__`
unfoldable pub archive_metadata : DocumentStatus → Option DateTime → Option ℕ → Result (Unit {0})
archive_metadata archived (some at) (some user) = validate_document_uuid user
archive_metadata archived _ _ = err (document_error missing_archive)
archive_metadata _ none none = ok tt
archive_metadata _ _ _ = err (document_error surplus_archive)

-- `_ensure_mutable`
unfoldable pub ensure_mutable : Document → Result (Unit {0})
ensure_mutable x = raise_if (is_archived x.status) archived_document_mutation

-- The status that a new current version gives
abbrev pub status_of_version : DocumentStorageState → DocumentStatus
status_of_version DocumentStorageState.stored = stored
status_of_version _ = registered

module _ (unicode : Unicode) where
  -- `__post_init__`
  unfoldable pub post_init : Document → Result Document
  post_init x = do
    validate_document_uuid x.organization_id
    validate_document_uuid x.created_by_user_id
    validate_document_uuid x.updated_by_user_id
    display_filename ← normalize_original_filename unicode x.display_filename
    source_reference ← normalize_source_reference unicode x.source_reference
    created_at ← document_timestamp x.created_at
    updated_at ← document_timestamp x.updated_at
    archived_at ← normalize_optional (document_error not_aware) x.archived_at
    raise_if (before updated_at created_at) (document_error updated_early)
    raise_if (x.lock_version == 0) (document_error not_positive)
    archive_metadata x.status archived_at x.archived_by_user_id
    ok (record x {
      display_filename = display_filename;
      source_reference = source_reference;
      created_at = created_at;
      updated_at = updated_at;
      archived_at = archived_at;
    })

  unfoldable pub register :
      (id organization_id : ℕ)
      → (display_filename : Text) → DocumentSourceType
      → (source_reference : Option Text) → (current_version : DocumentVersion)
      → (created_by_user_id : ℕ) → (now : DateTime) → Result Document
  register id organization_id display_filename source_type source_reference current_version
        created_by_user_id now =
      do
        raise_if (not (current_version.document_id == id)) (document_error wrong_document)
        raise_if (not (current_version.organization_id == organization_id))
            (document_error wrong_tenant)
        at ← document_timestamp now
        post_init (record {
          id = id;
          organization_id = organization_id;
          display_filename = display_filename;
          source_type = source_type;
          source_reference = source_reference;
          status = registered;
          current_version_id = current_version.id;
          archived_at = none;
          archived_by_user_id = none;
          created_at = at;
          created_by_user_id = created_by_user_id;
          updated_at = at;
          updated_by_user_id = created_by_user_id;
          lock_version = 1;
        })

  -- `_mutated`, of a document in which the changes are made
  unfoldable pub mutated :
      Document → (changed : Document) → (actor_user_id : ℕ) → (now : DateTime) → Result Document
  mutated x changed actor_user_id now = do
    validate_document_uuid actor_user_id
    at ← document_timestamp now
    raise_if (before at x.created_at) (document_error mutation_early)
    post_init (record changed {
      updated_at = at;
      updated_by_user_id = actor_user_id;
      lock_version = x.lock_version + 1;
    })

  -- `_transition_to`
  unfoldable pub transition_to :
      Document → DocumentStatus → (actor_user_id : ℕ) → (now : DateTime) → Result Document
  transition_to x status actor_user_id now = do
    ensure_mutable x
    raise_if (is_settled x.status) invalid_document_transition
    mutated x (record x { status = status }) actor_user_id now

  unfoldable pub mark_stored : Document → (actor_user_id : ℕ) → (now : DateTime) → Result Document
  mark_stored x actor_user_id now = transition_to x stored actor_user_id now

  unfoldable pub mark_failed : Document → (actor_user_id : ℕ) → (now : DateTime) → Result Document
  mark_failed x actor_user_id now = transition_to x failed actor_user_id now

  unfoldable pub set_current_version :
      Document → DocumentVersion → (actor_user_id : ℕ) → (now : DateTime) → Result Document
  set_current_version x version actor_user_id now = do
    ensure_mutable x
    raise_if (not (version.document_id == x.id)) (document_error wrong_document)
    raise_if (not (version.organization_id == x.organization_id)) (document_error wrong_tenant)
    mutated x
        (record x {
          current_version_id = version.id;
          display_filename = version.original_filename;
          status = status_of_version version.storage_state;
        })
        actor_user_id now

  unfoldable pub archive : Document → (actor_user_id : ℕ) → (now : DateTime) → Result Document
  archive x actor_user_id now = do
    ensure_mutable x
    at ← document_timestamp now
    validate_document_uuid actor_user_id
    raise_if (before at x.created_at) (document_error mutation_early)
    post_init (record x {
      status = archived;
      archived_at = some at;
      archived_by_user_id = some actor_user_id;
      updated_at = at;
      updated_by_user_id = actor_user_id;
      lock_version = x.lock_version + 1;
    })

-- `artifact.document_version_id != version.id`
abbrev pub names_version : Option ℕ → ℕ → Bool
names_version none id = false
names_version (some version) id = version == id

-- The part of `assert_artifact_consistent` on the version, if one is given
unfoldable pub assert_version_consistent :
    Document → DocumentArtifact → Option DocumentVersion → Result (Unit {0})
assert_version_consistent document artifact none = ok tt
assert_version_consistent document artifact (some version) = do
  raise_if (not (names_version artifact.document_version_id version.id))
      (document_error wrong_document)
  raise_if
      (not (version.organization_id == document.organization_id)
        || not (version.document_id == document.id))
      (document_error wrong_tenant)

-- `assert_artifact_consistent`
unfoldable pub assert_artifact_consistent :
    Document → DocumentArtifact → Option DocumentVersion → Result (Unit {0})
assert_artifact_consistent document artifact version = do
  raise_if
      (not (artifact.organization_id == document.organization_id)
        || not (artifact.document_id == document.id))
      (document_error wrong_document)
  assert_version_consistent document artifact version
