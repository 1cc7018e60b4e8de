-- ===== src/Uploads/Content.antt =====
-- The tests of the bytes of an upload: `validate_streamed_content` of packages/application/src/
-- workflowforge_application/documents/upload_validation.py. The central directory of a ZIP file is
-- read by the library that the code calls.
use mathlib.Core.Option
use workflow_forge.Documents.Naming.{Unicode, starts_with, contains, replace_backslash}
use workflow_forge.Uploads.Stream.{Bytes, StreamedUpload}
use workflow_forge.Uploads.Metadata.{SupportedUploadType, pdf, png, jpeg, txt, html, docx}
use workflow_forge.Base.{
  Bool, Result, List, ℕ, Option, some, ok, false, leb, ◌∷◌, UploadProblem, ◌>>◌, ◌+◌, [], suc, true,
  ◌&&◌, length, raise_if, invalid_file_signature, any, malformed_file, ◌||◌, none, take, ltb, not,
  max, ◌>>=◌, drop, ◌==◌, ◌-◌, upload_validation, or_raise, ◌%◌, ◌*◌, if◌then◌else◌, zero,
}
use workflow_forge.Text.{Text, codes, text_eq}

-- What `infolist` says of a member of an archive
pub record ZipInfo : Type 0 where
  pub filename : Text
  pub file_size : ℕ
  pub compress_size : ℕ
  pub flag_bits : ℕ

-- `value.endswith(part)`
abbrev pub ends_with : Bytes → Bytes → Bool
ends_with part t = leb (length part) (length t) && text_eq (drop (length t - length part) t) part

-- The two steps of a test: another exception is raised for what is malformed.
abbrev pub unless : Bool → UploadProblem → Result (Unit {0})
unless test problem = raise_if (not test) (upload_validation problem)

unfoldable pub supported_versions : List Bytes
supported_versions =
    codes "1.0"
    ∷ codes "1.1"
    ∷ codes "1.2"
    ∷ codes "1.3"
    ∷ codes "1.4"
    ∷ codes "1.5"
    ∷ codes "1.6"
    ∷ codes "1.7"
    ∷ codes "2.0"
    ∷ []

-- `_validate_pdf`
unfoldable pub validate_pdf : (prefix : Bytes) → Result (Unit {0})
validate_pdf prefix = do
  unless (starts_with (codes "%PDF-") prefix) invalid_file_signature
  let version = take 3 (drop 5 prefix)
  raise_if (ltb (length prefix) 8 || not (any (λ v. text_eq v version) supported_versions))
      (upload_validation malformed_file)

-- `_validate_png`
unfoldable pub validate_png : (prefix : Bytes) → Result (Unit {0})
validate_png prefix =
    unless (starts_with (0x89 ∷ 0x50 ∷ 0x4e ∷ 0x47 ∷ 0x0d ∷ 0x0a ∷ 0x1a ∷ 0x0a ∷ []) prefix)
      invalid_file_signature

-- `_validate_jpeg`
unfoldable pub validate_jpeg : (prefix suffix : Bytes) → Result (Unit {0})
validate_jpeg prefix suffix = do
  unless (starts_with (0xff ∷ 0xd8 ∷ []) prefix) invalid_file_signature
  unless (ends_with (0xff ∷ 0xd9 ∷ []) suffix) malformed_file

-- `data.decode("utf-8")`: `need` continuation bytes are to come, `value` is what the others gave, and
-- the code point is `least` at least.
abbrev pub is_scalar : (least value : ℕ) → Bool
is_scalar least value =
    leb least value && leb value 0x10ffff && not (leb 0xd800 value && leb value 0xdfff)

unfoldable pub decode_from : (need value least : ℕ) → Bytes → Option Text
decode_from zero value least [] = some []
decode_from (suc need) value least [] = none
decode_from zero value least (b ∷ bytes) =
    let one = decode_from 1 (b - 0xc0) 0x80 bytes in
    let two = decode_from 2 (b - 0xe0) 0x800 bytes in
    let three = decode_from 3 (b - 0xf0) 0x10000 bytes in
    let plain = Option.map (λ t. b ∷ t) (decode_from zero 0 0 bytes) in
    if ltb b 0x80
    then plain
    else if ltb b 0xc0
    then none
    else if ltb b 0xe0
    then one
    else if ltb b 0xf0
    then two
    else if ltb b 0xf8
    then three
    else none
decode_from (suc need) value least (b ∷ bytes) =
    let value' = value * 64 + (b - 0x80) in
    let more = decode_from need value' least bytes in
    let whole = Option.map (λ t. value' ∷ t) (decode_from zero 0 0 bytes) in
    if not (leb 0x80 b && ltb b 0xc0)
    then none
    else if ltb 0 need
    then more
    else if is_scalar least value'
    then whole
    else none

unfoldable pub decode_utf8 : Bytes → Option Text
decode_utf8 = decode_from 0 0 0

-- `_validate_zip_entry`
unfoldable pub validate_zip_entry : ZipInfo → Result (Unit {0})
validate_zip_entry entry = do
  let filename = replace_backslash entry.filename
  raise_if
      (starts_with (codes "/") filename
        || starts_with (codes "../") filename
        || contains (codes "/../") filename)
      (upload_validation malformed_file)
  raise_if (entry.flag_bits % 2 == 1) (upload_validation malformed_file)

-- The loop over the entries, with the two sums
unfoldable pub add_entries : List ZipInfo → (uncompressed compressed : ℕ) → Result (ℕ × ℕ)
add_entries [] uncompressed compressed = ok (uncompressed, compressed)
add_entries (entry ∷ entries) uncompressed compressed = do
  validate_zip_entry entry
  add_entries entries (uncompressed + entry.file_size) (compressed + max entry.compress_size 1)

-- `total_uncompressed / total_compressed > DOCX_MAX_COMPRESSION_RATIO`, which floating point decides
-- exactly for sizes below the limit.
unfoldable pub validate_docx_entries : List ZipInfo → Result (Unit {0})
validate_docx_entries entries = do
  raise_if (ltb 256 (length entries)) (upload_validation malformed_file)
  raise_if
      (not (any (λ e. text_eq e.filename (codes "[Content_Types].xml")) entries)
        || not (any (λ e. text_eq e.filename (codes "word/document.xml")) entries))
      (upload_validation malformed_file)
  totals ← add_entries entries 0 0
  raise_if (ltb 52428800 totals.0) (upload_validation malformed_file)
  raise_if (ltb (100 * totals.1) totals.0) (upload_validation malformed_file)

module _ (unicode : Unicode) (read_zip : Bytes → Option (List ZipInfo)) where
  -- `_validate_text`
  unfoldable pub validate_text : (body : Bytes) → (expect_html : Bool) → Result (Unit {0})
  validate_text body expect_html = do
    raise_if (any (λ b. b == 0) body) (upload_validation malformed_file)
    text ← or_raise (decode_utf8 body) (upload_validation malformed_file)
    let lowered = unicode.casefold text
    raise_if
        (expect_html
          && not (contains (codes "<html") lowered)
          && not (contains (codes "<!doctype html") lowered))
        (upload_validation malformed_file)

  -- `_validate_docx`
  unfoldable pub validate_docx : (body : Bytes) → Result (Unit {0})
  validate_docx body = do
    unless (starts_with (0x50 ∷ 0x4b ∷ 0x03 ∷ 0x04 ∷ []) body) invalid_file_signature
    entries ← or_raise (read_zip body) (upload_validation malformed_file)
    validate_docx_entries entries

  -- `validate_streamed_content`
  unfoldable pub validate_streamed_content :
      SupportedUploadType → StreamedUpload → Result (Unit {0})
  validate_streamed_content pdf upload = validate_pdf upload.prefix
  validate_streamed_content png upload = validate_png upload.prefix
  validate_streamed_content jpeg upload = validate_jpeg upload.prefix upload.suffix
  validate_streamed_content txt upload = validate_text upload.body false
  validate_streamed_content html upload = validate_text upload.body true
  validate_streamed_content docx upload = validate_docx upload.body
