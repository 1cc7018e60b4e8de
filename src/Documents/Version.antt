-- ===== src/Documents/Version.antt =====
-- `DocumentVersion` and `DocumentArtifact` of packages/domain/src/workflowforge_domain/documents.py.
use workflow_forge.Documents.Naming.{
  Unicode, normalize_original_filename, normalize_media_type, slash,
}
use workflow_forge.Documents.Keys
use workflow_forge.Documents.Keys.{
  uuid_text, document_prefix, for_document_content, ensure_key_is_tenant_safe,
  validate_document_uuid,
}
use workflow_forge.Time.{DateTime, normalize}
use workflow_forge.Base.{
  Bool, ℕ, Result, Option, List, ◌>>◌, ◌>>=◌, some, ◌++◌, raise_if, ok, or_raise, document_error,
  none, required, not_aware, is_empty, ◌==◌, ltb, length, ◌∷◌, ◌||◌, not_positive, [], malformed,
  too_long, read_all, err,
}
use workflow_forge.Text.{Text, codes}

pub data DocumentStorageState : Type 0 where
  pending stored failed : DocumentStorageState

pub data DocumentArtifactType : Type 0 where
  original preview text export other : DocumentArtifactType

-- `_normalize_timestamp`
abbrev pub document_timestamp : DateTime → Result DateTime
document_timestamp = normalize (document_error not_aware)

pub record DocumentVersion : Type 0 where
  pub id : ℕ
  pub organization_id : ℕ
  pub document_id : ℕ
  pub version_number : ℕ
  pub original_filename : Text
  pub media_type : Text
  pub byte_size : ℕ
  pub content_hash : Text
  pub storage_object_key : Text
  pub storage_state : DocumentStorageState
  pub created_at : DateTime
  pub created_by_user_id : ℕ

-- A value of the metadata of an artifact. An integer stands for any number, of which the code looks
-- at nothing but that it is one; `unsupported` is a value of any other Python type.
pub data MetadataValue : Type 0 where
  null : MetadataValue
  boolean : Bool → MetadataValue
  integer : ℕ → MetadataValue
  string : Text → MetadataValue
  uuid : ℕ → MetadataValue
  unsupported : MetadataValue

pub record DocumentArtifact : Type 0 where
  pub id : ℕ
  pub organization_id : ℕ
  pub document_id : ℕ
  pub document_version_id : Option ℕ
  pub artifact_type : DocumentArtifactType
  pub media_type : Text
  pub byte_size : ℕ
  pub content_hash : Option Text
  pub storage_object_key : Text
  pub metadata : List (Text × MetadataValue)
  pub created_at : DateTime
  pub created_by_user_id : Option ℕ

-- One entry of `_safe_artifact_metadata`
unfoldable pub safe_value : MetadataValue → Result MetadataValue
safe_value (string value) = do
  raise_if (ltb 512 (length value)) (document_error too_long)
  ok (string value)
safe_value (uuid value) = ok (string (uuid_text value))
safe_value unsupported = err (document_error malformed)
safe_value value = ok value

unfoldable pub safe_entry : Text × MetadataValue → Result (Text × MetadataValue)
safe_entry (key, value) = do
  raise_if (is_empty key || ltb 64 (length key)) (document_error malformed)
  safe ← safe_value value
  ok (key, safe)

-- `_safe_artifact_metadata`
unfoldable pub safe_artifact_metadata :
    List (Text × MetadataValue) → Result (List (Text × MetadataValue))
safe_artifact_metadata metadata = do
  raise_if (ltb 32 (length metadata)) (document_error too_long)
  read_all safe_entry metadata

-- `storage_object_key or StorageObjectKey.for_document_content(…)`
abbrev pub key_or_default : Option Text → (organization_id : ℕ) → (digest : Text) → Result Text
key_or_default (some key) organization_id digest = ok key
key_or_default none organization_id digest = for_document_content organization_id digest

abbrev pub artifact_type_text : DocumentArtifactType → Text
artifact_type_text original = codes "original"
artifact_type_text preview = codes "preview"
artifact_type_text text = codes "text"
artifact_type_text export = codes "export"
artifact_type_text other = codes "other"

-- The prefix of the keys of a document's artifacts
unfoldable pub artifact_prefix : (organization_id document_id : ℕ) → Text
artifact_prefix organization_id document_id =
    codes "artifacts/"
    ++ (uuid_text organization_id ++ (slash ∷ (uuid_text document_id ++ (slash ∷ []))))

-- `StorageObjectKey.for_artifact`
unfoldable pub for_artifact :
    (organization_id document_id : ℕ) → DocumentArtifactType → (artifact_id : ℕ) → Result Text
for_artifact organization_id document_id artifact_type artifact_id = do
  validate_document_uuid organization_id
  Keys.storage_object_key (
      artifact_prefix organization_id document_id
      ++ artifact_type_text artifact_type
      ++ (slash ∷ uuid_text artifact_id))

module _ (unicode : Unicode) where
  -- `DocumentVersion.__post_init__`
  unfoldable pub document_version : DocumentVersion → Result DocumentVersion
  document_version x = do
    validate_document_uuid x.organization_id
    validate_document_uuid x.created_by_user_id
    raise_if (x.version_number == 0) (document_error not_positive)
    original_filename ← normalize_original_filename unicode x.original_filename
    media_type ← normalize_media_type unicode x.media_type
    created_at ← document_timestamp x.created_at
    ensure_key_is_tenant_safe x.storage_object_key x.organization_id
        (document_prefix x.organization_id)
    ok (record x {
      original_filename = original_filename;
      media_type = media_type;
      created_at = created_at;
    })

  -- `DocumentVersion.create`
  unfoldable pub create_version :
      (id organization_id document_id version_number : ℕ)
      → (original_filename media_type : Text) → (byte_size : ℕ) → (digest : Text)
      → DocumentStorageState
      → (created_at : DateTime) → (created_by_user_id : ℕ) → (key : Option Text)
      → Result DocumentVersion
  create_version id organization_id document_id version_number original_filename media_type
        byte_size digest storage_state created_at created_by_user_id key =
      do
        key ← key_or_default key organization_id digest
        document_version (record {
          id = id;
          organization_id = organization_id;
          document_id = document_id;
          version_number = version_number;
          original_filename = original_filename;
          media_type = media_type;
          byte_size = byte_size;
          content_hash = digest;
          storage_object_key = key;
          storage_state = storage_state;
          created_at = created_at;
          created_by_user_id = created_by_user_id;
        })

  -- `DocumentArtifact.__post_init__`
  unfoldable pub document_artifact : DocumentArtifact → Result DocumentArtifact
  document_artifact x = do
    validate_document_uuid x.organization_id
    creator ← or_raise x.created_by_user_id (document_error required)
    validate_document_uuid creator
    media_type ← normalize_media_type unicode x.media_type
    metadata ← safe_artifact_metadata x.metadata
    created_at ← document_timestamp x.created_at
    ensure_key_is_tenant_safe x.storage_object_key x.organization_id
        (artifact_prefix x.organization_id x.document_id)
    ok (record x { media_type = media_type; metadata = metadata; created_at = created_at })
