-- ===== src/Documents/Keys.antt =====
-- `ContentHash` and `StorageObjectKey` of packages/domain/src/workflowforge_domain/documents.py.
use workflow_forge.Documents.Naming.{
  Unicode, slash, backslash, dot, starts_with, contains, is_digit, is_lower,
}
use workflow_forge.Base.{
  ℕ, if◌then◌else◌, Bool, List, take, ◌++◌, [], Result, raise_if, false, suc, length, ◌||◌, ltb,
  ◌>>◌, ◌∷◌, err, any, document_error, ◌==◌, drop, ◌/◌, leb, not, ◌+◌, ◌&&◌, unsafe_text,
  wrong_tenant, all, malformed, ◌%◌, nil_uuid, zero, ok,
}
use workflow_forge.Text.{Text, codes}

-- A digit of base 16, in lower case
unfoldable pub hex_digit : ℕ → ℕ
hex_digit d = if ltb d 10 then 0x30 + d else 0x57 + d

-- `'%0*x' % (n, value)`
unfoldable pub hex : ℕ → ℕ → Text
hex zero value = []
hex (suc n) value = hex n (value / 16) ++ (hex_digit (value % 16) ∷ [])

abbrev pub hyphen : ℕ
hyphen = 0x2d

-- `str(value)` of a UUID, of which the number is `value.int`
unfoldable pub uuid_text : ℕ → Text
uuid_text value =
    let digits = hex 32 value in
    take 8 digits
    ++ (hyphen
        ∷ (take 4 (drop 8 digits)
            ++ (hyphen
                ∷ (take 4 (drop 12 digits)
                    ++ (hyphen ∷ (take 4 (drop 16 digits) ++ (hyphen ∷ drop 20 digits)))))))

-- `_SHA256_HEX_PATTERN`
abbrev pub is_hex : ℕ → Bool
is_hex c = is_digit c || (leb 0x61 c && leb c 0x66)

unfoldable pub is_sha256 : Text → Bool
is_sha256 t = length t == 64 && all is_hex t

-- `ContentHash.__post_init__`
unfoldable pub content_hash : Unicode → Text → Result Text
content_hash unicode value = do
  let normalized = unicode.lower value
  raise_if (not (is_sha256 normalized)) (document_error malformed)
  ok normalized

-- `[a-z0-9]` and `[a-z0-9_.-]`
abbrev pub is_key_start : ℕ → Bool
is_key_start c = is_lower c || is_digit c

unfoldable pub is_segment_character : ℕ → Bool
is_segment_character c = is_key_start c || any (λ d. d == c) (codes "_.-")

-- `_STORAGE_KEY_PATTERN`, which asks for two characters at least
abbrev pub ends_well : Text → Bool
ends_well [] = false
ends_well (c ∷ []) = is_key_start c
ends_well (c ∷ d ∷ t) = ends_well (d ∷ t)

unfoldable pub is_storage_key : Text → Bool
is_storage_key [] = false
is_storage_key (c ∷ t) =
    is_key_start c && all (λ d. is_segment_character d || d == slash) t && ends_well t

-- `_SAFE_SEGMENT_PATTERN`
unfoldable pub is_safe_segment : Text → Bool
is_safe_segment [] = false
is_safe_segment (c ∷ t) = is_key_start c && all is_segment_character t

abbrev pub prepend : ℕ → List Text → List Text
prepend c [] = (c ∷ []) ∷ []
prepend c (w ∷ ws) = (c ∷ w) ∷ ws

-- `value.split("/")`
unfoldable pub segments : Text → List Text
segments [] = [] ∷ []
segments (c ∷ t) = if c == slash then [] ∷ segments t else prepend c (segments t)

-- `StorageObjectKey.__post_init__`
unfoldable pub storage_object_key : Text → Result Text
storage_object_key value = do
  raise_if
      (contains (dot ∷ dot ∷ []) value
        || contains (backslash ∷ []) value
        || contains (slash ∷ slash ∷ []) value)
      (document_error unsafe_text)
  raise_if (not (is_storage_key value)) (document_error malformed)
  raise_if (not (all is_safe_segment (segments value))) (document_error malformed)
  ok value

abbrev pub validate_document_uuid : ℕ → Result (Unit {0})
validate_document_uuid value = raise_if (value == 0) (document_error nil_uuid)

-- The prefix of the keys of an organization's documents
unfoldable pub document_prefix : (organization_id : ℕ) → Text
document_prefix organization_id =
    codes "documents/" ++ (uuid_text organization_id ++ codes "/sha256/")

unfoldable pub document_key_text : (organization_id : ℕ) → (digest : Text) → Text
document_key_text organization_id digest =
    document_prefix organization_id
    ++ (take 2 digest ++ (slash ∷ (take 2 (drop 2 digest) ++ (slash ∷ digest))))

-- `for_document_content`
unfoldable pub for_document_content : (organization_id : ℕ) → (digest : Text) → Result Text
for_document_content organization_id digest = do
  validate_document_uuid organization_id
  storage_object_key (document_key_text organization_id digest)

-- `for_temporary_upload`
unfoldable pub for_temporary_upload : (organization_id upload_id : ℕ) → Result Text
for_temporary_upload organization_id upload_id = do
  validate_document_uuid organization_id
  validate_document_uuid upload_id
  storage_object_key (codes "tmp/" ++ (uuid_text organization_id ++ (slash ∷ uuid_text upload_id)))

-- `from_content_hash`
unfoldable pub from_content_hash : (digest : Text) → Result Text
from_content_hash digest = err (document_error wrong_tenant)

-- `_ensure_key_is_tenant_safe`
unfoldable pub ensure_key_is_tenant_safe :
    (key : Text) → (organization_id : ℕ) → (expected_prefix : Text) → Result (Unit {0})
ensure_key_is_tenant_safe key organization_id expected_prefix =
    raise_if
      (not (contains (uuid_text organization_id) key) || not (starts_with expected_prefix key))
      (document_error wrong_tenant)
