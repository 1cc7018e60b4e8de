-- ===== src/Examples/Papers.antt =====
-- A document, its storage key and an upload of four bytes.
use workflow_forge.Documents.Document
use workflow_forge.Documents.Document.{Document, DocumentStatus, DocumentSourceType}
use workflow_forge.Documents.Document.Lifecycle
use workflow_forge.Documents.Document.Lifecycle.{Changed, document_lifecycle}
use workflow_forge.Documents.Naming.{
  Unicode, normalize_original_filename, filename_form, replace_backslash, after_last, keep,
  normalize_media_type, contains, is_media_type, is_media_part, starts_with, cut, is_alphanumeric,
  is_media_character, normalize_source_reference,
}
use workflow_forge.Documents.Filename.{IsSafeName, normalize_original_filename-IsSafeName}
use workflow_forge.Documents.Keys.{
  for_document_content, document_key_text, document_prefix, uuid_text, hex, content_hash, hex_digit,
  is_sha256, storage_object_key, is_storage_key, is_segment_character, is_safe_segment, segments,
}
use workflow_forge.Documents.Distinct.{document_key-injective}
use workflow_forge.Uploads.Stream.{
  Bytes, UploadStream, StreamedUpload, chunk, stream_upload, read_loop, take_in, finish,
}
use workflow_forge.Uploads.Bounded.{delivered}
use workflow_forge.Uploads.Guarantees.{
  expected_upload, IsBoundedUpload, stream_upload_total, stream_upload-delivered,
  stream_upload_bounds,
}
use workflow_forge.Uploads.Metadata.{
  NormalizedUploadMetadata, png, normalize_upload_metadata, normalize_upload_filename, extension_of,
  policy_for_extension, policy_from, policies,
}
use workflow_forge.Uploads.Consistent.{IsConsistent, normalize_upload_metadata-IsConsistent}
use workflow_forge.Uploads.Content.{validate_streamed_content, decode_utf8, decode_from}
use workflow_forge.Uploads.Samples.{samples_of, whole_of, validate_streamed_content-samples}
use workflow_forge.Text.{Text, codes, strip, lstrip, rstrip, split, split_from, join, is_space}
use workflow_forge.Base.{
  if◌then◌else◌, ◌∷◌, ltb, ◌≡◌, none, ℕ, some, Result, [], arith, ◌||◌, ok, leb, ◌==◌, refl, map,
  ◌&&◌, err, suc, ◌+◌, zero, archived_document_mutation, invalid_document_transition, is_ok, true,
}
use workflow_forge.Time.{utc, DateTime, normalize, normalize_optional}
use workflow_forge.Uploads.Fingerprint.{
  request_fingerprint, request_fingerprint-injective, material, decimal, decimal_from,
}

-- The Unicode database of a text of ASCII characters
abbrev ascii_lower : ℕ → ℕ
ascii_lower c = if leb 65 c && leb c 90 then c + 32 else c

abbrev ascii : Unicode
ascii = record {
  nfc = λ t. t;
  is_other = λ c. ltb c 32 || c == 127;
  lower = map ascii_lower;
  casefold = map ascii_lower;
}

named : normalize_original_filename ascii (codes "C:\\tmp\\ A  b.PNG ") ≡ ok (codes "A b.PNG")
unfolding normalize_original_filename filename_form replace_backslash after_last keep strip lstrip
    rstrip split split_from join is_space
named = refl

normalize_original_filename-IsSafeName_example : IsSafeName ascii (codes "A b.PNG")
normalize_original_filename-IsSafeName_example =
    normalize_original_filename-IsSafeName ascii (codes "C:\\tmp\\ A  b.PNG ") (codes "A b.PNG")
      refl named

abbrev paper : Document
paper = record {
  id = 5;
  organization_id = 7;
  display_filename = codes "a.pdf";
  source_type = DocumentSourceType.upload;
  source_reference = none;
  status = DocumentStatus.registered;
  current_version_id = 9;
  archived_at = none;
  archived_by_user_id = none;
  created_at = utc 100;
  created_by_user_id = 11;
  updated_at = utc 100;
  updated_by_user_id = 11;
  lock_version = 1;
}

document_lifecycle_example :
    ((y : Document)
      → Lifecycle.apply ascii (Lifecycle.archiving 11 (utc 150)) paper ≡ ok y
      → Changed ascii (Lifecycle.archiving 11 (utc 150)) paper y)
    × (paper.status ≡ DocumentStatus.archived
        → Lifecycle.apply ascii (Lifecycle.archiving 11 (utc 150)) paper
          ≡ err archived_document_mutation)
    × ((actor : ℕ) (now : DateTime)
        → paper.status ≡ DocumentStatus.stored
        → (Document.mark_stored ascii paper actor now ≡ err invalid_document_transition)
          × (Document.mark_failed ascii paper actor now ≡ err invalid_document_transition))
document_lifecycle_example = document_lifecycle ascii refl (Lifecycle.archiving 11 (utc 150)) paper

-- The document can be archived.
archived_paper : is_ok (Lifecycle.apply ascii (Lifecycle.archiving 11 (utc 150)) paper) ≡ true
unfolding normalize_original_filename filename_form replace_backslash after_last keep strip lstrip
    rstrip split split_from join is_space Document.archive Document.ensure_mutable
    Document.post_init Document.archive_metadata normalize normalize_optional
    normalize_source_reference
archived_paper = refl

abbrev repeated : ℕ → Text
repeated zero = []
repeated (suc n) = 97 ∷ repeated n

abbrev digest : Text
digest = repeated 64

abbrev key : Text
key =
    codes
      "documents/00000000-0000-0000-0000-000000000007/sha256/aa/aa/aaaaaaaaaaaaaaaaaaaaaaaaaaaaaaaaaaaaaaaaaaaaaaaaaaaaaaaaaaaaaaaa"

key_made : for_document_content 7 digest ≡ ok key
unfolding for_document_content document_key_text document_prefix uuid_text hex hex_digit
    storage_object_key contains starts_with is_storage_key is_segment_character is_safe_segment
    segments
key_made = refl

document_key-injective_example : (◌≡◌ {A = ℕ} 7 7) × (digest ≡ digest)
document_key-injective_example =
    document_key-injective 7 7 digest digest key (omega arith) (omega arith) refl key_made key_made

-- A PNG file's first bytes in two chunks
abbrev stream : UploadStream
stream k =
    if k == 0
    then chunk (0x89 ∷ 0x50 ∷ [])
    else if k == 1
    then chunk (0x4e ∷ 0x47 ∷ [])
    else chunk []

abbrev body : Bytes
body = 0x89 ∷ 0x50 ∷ 0x4e ∷ 0x47 ∷ []

abbrev hash : Bytes → Text
hash bytes = digest

arrives : delivered 3 stream 0 ≡ some body
unfolding delivered
arrives = refl

abbrev streamed : StreamedUpload
streamed = record {
  body = body;
  content_hash = digest;
  byte_size = 4;
  prefix = body;
  suffix = body;
}

upload_returns : stream_upload ascii hash 10 stream ≡ some (ok streamed)
unfolding stream_upload read_loop take_in finish content_hash is_sha256
upload_returns = refl

stream_upload_total_example :
    (r : Result StreamedUpload) × (stream_upload ascii hash 10 (λ k. chunk body) ≡ some r)
stream_upload_total_example = stream_upload_total ascii hash 10 (λ k. chunk body)

stream_upload-delivered_example :
    stream_upload ascii hash 10 stream ≡ some (expected_upload ascii hash 10 body)
stream_upload-delivered_example = stream_upload-delivered ascii hash 10 3 stream body arrives

stream_upload_bounds_example : IsBoundedUpload ascii hash 10 streamed
stream_upload_bounds_example = stream_upload_bounds ascii hash 10 stream streamed upload_returns

abbrev metadata : NormalizedUploadMetadata
metadata = record {
  filename = codes "A b.PNG";
  extension = codes ".png";
  media_type = codes "image/png";
  upload_type = png;
}

metadata_returns :
    normalize_upload_metadata ascii (some (codes "C:\\tmp\\ A  b.PNG ")) (some (codes "image/PNG"))
    ≡ ok metadata
unfolding normalize_upload_metadata normalize_upload_filename extension_of policy_for_extension
    policy_from policies normalize_media_type is_media_type is_media_part cut is_alphanumeric
    is_media_character filename_form replace_backslash after_last keep strip lstrip rstrip split
    split_from join is_space
metadata_returns = refl

normalize_upload_metadata-IsConsistent_example :
    IsConsistent ascii (some (codes "C:\\tmp\\ A  b.PNG ")) (some (codes "image/PNG")) metadata
normalize_upload_metadata-IsConsistent_example =
    normalize_upload_metadata-IsConsistent ascii refl (some (codes "C:\\tmp\\ A  b.PNG "))
      (some (codes "image/PNG")) metadata metadata_returns

validate_streamed_content-samples_example :
    validate_streamed_content ascii (λ b. none) png (samples_of body digest)
    ≡ validate_streamed_content ascii (λ b. none) png (whole_of body digest)
validate_streamed_content-samples_example =
    validate_streamed_content-samples ascii (λ b. none) png body digest

-- Two bytes of a character, and an overlong form
decoded : decode_utf8 (0xc3 ∷ 0xa9 ∷ 0x61 ∷ []) ≡ some (0xe9 ∷ 0x61 ∷ [])
unfolding decode_utf8 decode_from
decoded = refl

overlong : decode_utf8 (0xc0 ∷ 0x80 ∷ []) ≡ none
unfolding decode_utf8 decode_from
overlong = refl

-- A file name that looks like the fields that follow it
request_fingerprint-injective_example :
    (digest ≡ digest)
    × (codes "a;type=b" ≡ codes "a;type=b")
    × (codes "text/plain" ≡ codes "text/plain")
    × (streamed.byte_size ≡ streamed.byte_size)
request_fingerprint-injective_example =
    request_fingerprint-injective (λ t. t) digest digest (codes "a;type=b") (codes "a;type=b")
      (codes "text/plain") (codes "text/plain") streamed.byte_size streamed.byte_size refl refl refl
      (λ h. h) refl

fingerprint_of :
    request_fingerprint (λ t. t) (codes "0a") (codes "a;type=b") (codes "text/plain") 120
    ≡ codes "sha256=0a;name=a;type=b;type=text/plain;size=120"
unfolding request_fingerprint material decimal decimal_from
fingerprint_of = refl
