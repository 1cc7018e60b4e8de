-- ===== src/Uploads/Metadata.antt =====
-- The names and declared types of uploads, and their keys: `normalize_upload_metadata` and
-- `validate_idempotency_key` of packages/application/src/workflowforge_application/documents/
-- upload_validation.py.
use workflow_forge.Documents.Naming.{
  Unicode, filename_form, is_path_name, after_last, dot, normalize_media_type, is_alphanumeric,
}
use workflow_forge.Base.{
  List, Option, ℕ, UploadProblem, Result, [], Bool, unsupported_file_type, ◌>>◌, ok, ◌>>=◌, err,
  invalid_filename, ◌∷◌, upload_validation, some, ◌||◌, ◌==◌, raise_if, is_empty, none, any,
  if◌then◌else◌, not, ltb, length, media_type_mismatch, all, invalid_idempotency_key,
}
use workflow_forge.Text.{Text, codes, strip, text_eq}

pub data SupportedUploadType : Type 0 where
  pdf png jpeg txt html docx : SupportedUploadType

pub record UploadTypePolicy : Type 0 where
  pub upload_type : SupportedUploadType
  pub extensions : List Text
  pub media_type : Text

pub record NormalizedUploadMetadata : Type 0 where
  pub filename : Text
  pub extension : Text
  pub media_type : Text
  pub upload_type : SupportedUploadType

abbrev pub policy : SupportedUploadType → List Text → Text → UploadTypePolicy
policy upload_type extensions media_type = record {
  upload_type = upload_type;
  extensions = extensions;
  media_type = media_type;
}

-- `_POLICIES`
unfoldable pub policies : List UploadTypePolicy
policies =
    policy pdf (codes ".pdf" ∷ []) (codes "application/pdf")
    ∷ policy png (codes ".png" ∷ []) (codes "image/png")
    ∷ policy jpeg (codes ".jpg" ∷ codes ".jpeg" ∷ []) (codes "image/jpeg")
    ∷ policy txt (codes ".txt" ∷ []) (codes "text/plain")
    ∷ policy html (codes ".html" ∷ codes ".htm" ∷ []) (codes "text/html")
    ∷ policy docx (codes ".docx" ∷ [])
        (codes "application/vnd.openxmlformats-officedocument.wordprocessingml.document")
    ∷ []

-- `validate_idempotency_key`
abbrev pub is_key_character : ℕ → Bool
is_key_character c = is_alphanumeric c || any (λ d. d == c) (codes "._:-")

unfoldable pub validate_idempotency_key : Text → Result Text
validate_idempotency_key value = do
  let normalized = strip value
  raise_if
      (is_empty normalized || ltb 128 (length normalized) || not (all is_key_character normalized))
      invalid_idempotency_key
  ok normalized

-- `_CONTROL_REJECT`
abbrev pub is_control : ℕ → Bool
is_control c = c == 0 || c == 13 || c == 10

abbrev pub rejected : {A : Type 0} → UploadProblem → Result A
rejected problem = err (upload_validation problem)

-- `for policy in _POLICIES: …`
unfoldable pub policy_from : List UploadTypePolicy → (extension : Text) → Result UploadTypePolicy
policy_from [] extension = rejected unsupported_file_type
policy_from (p ∷ ps) extension =
    if any (λ e. text_eq e extension) p.extensions then ok p else policy_from ps extension

-- `_policy_for_extension`
unfoldable pub policy_for_extension : (extension : Text) → Result UploadTypePolicy
policy_for_extension = policy_from policies

-- `except Exception as exc: raise UploadValidationError(…)`
abbrev pub or_unsupported : Result Text → Result Text
or_unsupported (ok t) = ok t
or_unsupported (err e) = rejected unsupported_file_type

-- `declared_media_type or ""`
abbrev pub or_empty : Option Text → Text
or_empty none = []
or_empty (some t) = t

module _ (unicode : Unicode) where
  -- `_normalize_upload_filename`
  unfoldable pub normalize_upload_filename : Option Text → Result Text
  normalize_upload_filename none = rejected invalid_filename
  normalize_upload_filename (some filename) = do
    raise_if (any is_control filename) (upload_validation invalid_filename)
    let normalized = filename_form unicode filename
    raise_if (is_path_name normalized) (upload_validation invalid_filename)
    raise_if (ltb 255 (length normalized)) (upload_validation invalid_filename)
    ok normalized

  -- `_extension`
  unfoldable pub extension_of : (filename : Text) → Result Text
  extension_of filename = do
    raise_if (not (any (λ c. c == dot) filename)) (upload_validation unsupported_file_type)
    let extension = unicode.casefold (after_last dot filename)
    raise_if (is_empty extension) (upload_validation unsupported_file_type)
    ok (dot ∷ extension)

  unfoldable pub normalize_upload_metadata :
      (filename declared_media_type : Option Text) → Result NormalizedUploadMetadata
  normalize_upload_metadata filename declared_media_type = do
    safe_filename ← normalize_upload_filename filename
    extension ← extension_of safe_filename
    found ← policy_for_extension extension
    media_type ← or_unsupported (normalize_media_type unicode (or_empty declared_media_type))
    raise_if (not (text_eq media_type found.media_type)) (upload_validation media_type_mismatch)
    ok (record {
      filename = safe_filename;
      extension = extension;
      media_type = media_type;
      upload_type = found.upload_type;
    })
