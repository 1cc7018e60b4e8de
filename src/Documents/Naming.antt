-- ===== src/Documents/Naming.antt =====
-- Names, references, media types, hashes and sizes of documents
-- (packages/domain/src/workflowforge_domain/documents.py).
-- What the Unicode database knows, which the code calls: normalization to NFC, the characters of a
-- category that starts with "C", lower case and case folding of a text.
use workflow_forge.Text.{Text, join, strip, text_eq, split, codes}
use workflow_forge.Base.{
  Option, ℕ, none, ◌∷◌, Result, Bool, ◌||◌, if◌then◌else◌, leb, false, any, ok, ◌&&◌, true, ◌>>◌,
  is_empty, not, some, raise_if, ◌==◌, [], all, document_error, ltb, not_text_type, length,
  unsafe_text, too_long,
}

pub record Unicode : Type 0 where
  pub nfc : Text → Text
  pub is_other : ℕ → Bool
  pub lower : Text → Text
  pub casefold : Text → Text

abbrev pub slash : ℕ
slash = 0x2f

abbrev pub backslash : ℕ
backslash = 0x5c

abbrev pub dot : ℕ
dot = 0x2e

-- `.replace("\\", "/")`
unfoldable pub replace_backslash : Text → Text
replace_backslash [] = []
replace_backslash (c ∷ s) = (if c == backslash then slash else c) ∷ replace_backslash s

-- `.rsplit(separator, maxsplit=1)[-1]`: what follows the last separator
unfoldable pub after_last : ℕ → Text → Text
after_last sep [] = []
after_last sep (c ∷ s) =
    let rest = after_last sep s in
    if any (λ d. d == sep) s then rest else if c == sep then s else c ∷ s

-- `"".join(character for character in value if …)`
unfoldable pub keep : (ℕ → Bool) → Text → Text
keep p [] = []
keep p (c ∷ s) = let rest = keep p s in if p c then c ∷ rest else rest

-- `value in {"", ".", ".."}`
abbrev pub is_path_name : Text → Bool
is_path_name t = text_eq t [] || text_eq t (dot ∷ []) || text_eq t (dot ∷ dot ∷ [])

-- `value.startswith(part)` and `part in value`
unfoldable pub starts_with : Text → Text → Bool
starts_with [] t = true
starts_with (c ∷ s) [] = false
starts_with (c ∷ s) (d ∷ t) = c == d && starts_with s t

unfoldable pub contains : Text → Text → Bool
contains part [] = is_empty part
contains part (c ∷ t) = starts_with part (c ∷ t) || contains part t

-- The words that a source reference must not have in it
unfoldable pub names_secret : Text → Bool
names_secret t =
    any (λ part. contains part t)
      (codes "password" ∷ codes "secret" ∷ codes "token" ∷ codes "authorization" ∷ [])

-- The character classes of the patterns
abbrev pub is_digit : ℕ → Bool
is_digit c = leb 0x30 c && leb c 0x39

abbrev pub is_lower : ℕ → Bool
is_lower c = leb 0x61 c && leb c 0x7a

abbrev pub is_upper : ℕ → Bool
is_upper c = leb 0x41 c && leb c 0x5a

unfoldable pub is_alphanumeric : ℕ → Bool
is_alphanumeric c = is_lower c || is_upper c || is_digit c

-- `[A-Za-z0-9!#$&^_.+-]`
unfoldable pub is_media_character : ℕ → Bool
is_media_character c = is_alphanumeric c || any (λ d. d == c) (codes "!#$&^_.+-")

-- `[A-Za-z0-9][A-Za-z0-9!#$&^_.+-]*`
unfoldable pub is_media_part : Text → Bool
is_media_part [] = false
is_media_part (c ∷ s) = is_alphanumeric c && all is_media_character s

-- What stands before the first slash, and after it if there is one
unfoldable pub cut : ℕ → Text → Text × Option Text
cut sep [] = ([], none)
cut sep (c ∷ s) =
    let (head, tail) = cut sep s in if c == sep then ([], some s) else (c ∷ head, tail)

abbrev pub is_some_part : Option Text → Bool
is_some_part none = false
is_some_part (some t) = is_media_part t

-- `_MEDIA_TYPE_PATTERN`: no character of a part is a slash
unfoldable pub is_media_type : Text → Bool
is_media_type t = let (head, tail) = cut slash t in is_media_part head && is_some_part tail

module _ (unicode : Unicode) where
  -- The normal form of a file name, before the tests
  unfoldable pub filename_form : Text → Text
  filename_form filename = join (
      split (
        keep (λ c. not (unicode.is_other c))
          (strip (after_last slash (replace_backslash (unicode.nfc filename))))))

  unfoldable pub normalize_original_filename : Text → Result Text
  normalize_original_filename filename = do
    let normalized = filename_form filename
    raise_if (is_path_name normalized) (document_error unsafe_text)
    raise_if (ltb 255 (length normalized)) (document_error too_long)
    ok normalized

  unfoldable pub normalize_source_reference : Option Text → Result (Option Text)
  normalize_source_reference none = ok none
  normalize_source_reference (some source_reference) =
      let normalized = strip (unicode.nfc source_reference) in
      if is_empty normalized then ok none else do
        raise_if (ltb 512 (length normalized)) (document_error too_long)
        raise_if (names_secret (unicode.casefold normalized)) (document_error unsafe_text)
        ok (some normalized)

  unfoldable pub normalize_media_type : Text → Result Text
  normalize_media_type media_type = do
    let normalized = unicode.lower (strip media_type)
    raise_if (not (is_media_type normalized)) (document_error not_text_type)
    ok normalized
