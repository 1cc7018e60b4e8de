-- ===== src/Documents/Filename.antt =====
-- The file names of documents are safe to show: no path, no control character.
use workflow_forge.Documents.Naming.{
  Unicode, slash, backslash, replace_backslash, after_last, keep, is_path_name, filename_form,
  normalize_original_filename,
}
use workflow_forge.Text.Chars.{All-strip, All-join-split}
use workflow_forge.Text.{Text, space, strip, squeeze}
use workflow_forge.Base.{
  ℕ, ◌≢◌, any, All, Bool, not, ◌∷◌, ◌==◌, ◌≡◌, true, Bool-cases, arith, false, length, ok, [], inl,
  ltb, ◌≤◌, inr, >>=-eq-ok, raise_if, ok-transport, raise_if-eq-ok,
}
use workflow_forge.Text.Split.{squeeze-join-split}

-- A character that neither separates a path nor is a control character
pub record IsPlain (unicode : Unicode) (c : ℕ) : Type 0 where
  pub no_slash : c ≢ slash
  pub no_backslash : c ≢ backslash
  pub shown : unicode.is_other c ≡ false

All-replace_backslash : (s : Text) → All (λ c. c ≢ backslash) (replace_backslash s)
unfolding replace_backslash
All-replace_backslash [] = tt
All-replace_backslash (c ∷ s) = (ground arith, All-replace_backslash s)

All-after_last : (P : ℕ → Type 0) (sep : ℕ) (s : Text) → All P s → All P (after_last sep s)
unfolding after_last
All-after_last P sep [] h = tt
All-after_last P sep (c ∷ s) h = elim (Bool-cases (any (λ d. d == sep) s)) [
  | inl e ↦ rw e (All-after_last P sep s h.1)
  | inr e ↦ rw e (elim (Bool-cases (c == sep)) [ inl f ↦ rw f h.1 | inr f ↦ rw f h ])
]

All-not_any : (sep : ℕ) (s : Text) → any (λ d. d == sep) s ≡ false → All (λ c. c ≢ sep) s
All-not_any sep [] h = tt
All-not_any sep (c ∷ s) h = (ground arith, All-not_any sep s (ground arith))

pub after_last-no_separator : (sep : ℕ) (s : Text) → All (λ c. c ≢ sep) (after_last sep s)
unfolding after_last
after_last-no_separator sep [] = tt
after_last-no_separator sep (c ∷ s) = elim (Bool-cases (any (λ d. d == sep) s)) [
  | inl e ↦ rw e (after_last-no_separator sep s)
  | inr e ↦ rw e (elim (Bool-cases (c == sep)) [
    | inl f ↦ rw f (All-not_any sep s e)
    | inr f ↦ rw f (ground arith, All-not_any sep s e)
  ])
]

All-keep : (P : ℕ → Type 0) (p : ℕ → Bool) (s : Text) → All P s → All P (keep p s)
unfolding keep
All-keep P p [] h = tt
All-keep P p (c ∷ s) h = elim (Bool-cases (p c)) [
  | inl e ↦ rw e (h.0, All-keep P p s h.1)
  | inr e ↦ rw e (All-keep P p s h.1)
]

keep-kept : (p : ℕ → Bool) (s : Text) → All (λ c. p c ≡ true) (keep p s)
unfolding keep
keep-kept p [] = tt
keep-kept p (c ∷ s) = elim (Bool-cases (p c)) [
  | inl e ↦ rw e (e, keep-kept p s)
  | inr e ↦ rw e (keep-kept p s)
]

All-zip :
    (unicode : Unicode) (s : Text)
    → All (λ c. c ≢ slash) s
    → All (λ c. c ≢ backslash) s
    → All (λ c. not (unicode.is_other c) ≡ true) s
    → All (IsPlain unicode) s
All-zip unicode [] h k l = tt
All-zip unicode (c ∷ s) h k l = (
  record { no_slash = h.0; no_backslash = k.0; shown = not_true (unicode.is_other c) l.0 },
  All-zip unicode s h.1 k.1 l.1,
)
  where
    not_true : (b : Bool) → not b ≡ true → b ≡ false
    not_true b h = ground arith

pub filename_form-IsPlain :
    (unicode : Unicode) (s : Text)
    → unicode.is_other space ≡ false
    → All (IsPlain unicode) (filename_form unicode s)
unfolding filename_form
filename_form-IsPlain unicode s blank =
    let flat = replace_backslash (unicode.nfc s) in
    let name = strip (after_last slash flat) in
    let p : ℕ → Bool = λ c. not (unicode.is_other c) in
    All-join-split (IsPlain unicode) (keep p name)
      (record { no_slash = omega arith; no_backslash = omega arith; shown = blank })
      (All-zip unicode (keep p name)
        (All-keep (λ c. c ≢ slash) p name
          (All-strip (λ c. c ≢ slash) (after_last slash flat) (after_last-no_separator slash flat)))
        (All-keep (λ c. c ≢ backslash) p name
          (All-strip (λ c. c ≢ backslash) (after_last slash flat)
            (All-after_last (λ c. c ≢ backslash) slash flat
              (All-replace_backslash (unicode.nfc s)))))
        (keep-kept p name))

-- A name that can stand in a listing and in a download header.
pub record IsSafeName (unicode : Unicode) (name : Text) : Type 0 where
  pub plain : All (IsPlain unicode) name
  pub no_path : is_path_name name ≡ false
  pub bounded : length name ≤ 255
  pub squeezed : squeeze name ≡ name

-- Whatever file name is given, the normalized one has no slash, no backslash and no control
-- character, is not empty, not "." and not "..", has at most 255 characters, and its words are
-- separated by single spaces. The space is no control character of the Unicode database.
pub normalize_original_filename-IsSafeName :
    (unicode : Unicode) (filename name : Text)
    → unicode.is_other space ≡ false
    → normalize_original_filename unicode filename ≡ ok name
    → IsSafeName unicode name
unfolding normalize_original_filename filename_form
normalize_original_filename-IsSafeName unicode filename name blank h =
    let form = filename_form unicode filename in
    let (_, path, h) = >>=-eq-ok (raise_if (is_path_name form) _) _ h in
    let (_, short, h) = >>=-eq-ok (raise_if (ltb 255 (length form)) _) _ h in
    ok-transport (IsSafeName unicode) h (record {
      plain = filename_form-IsPlain unicode filename blank;
      no_path = raise_if-eq-ok (is_path_name form) _ path;
      bounded = within (length form) (raise_if-eq-ok (ltb 255 (length form)) _ short);
      squeezed = squeeze-join-split _;
    })
  where
    within : (n : ℕ) → ltb 255 n ≡ false → n ≤ 255
    within n h = ground arith
