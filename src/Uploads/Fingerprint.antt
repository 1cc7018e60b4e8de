-- ===== src/Uploads/Fingerprint.antt =====
-- `request_fingerprint`, which tells a repeated upload from another one under the same key.
use workflow_forge.Documents.Distinct.{append-cancel, prefix-cancel}
use workflow_forge.Text.{Text, codes}
use workflow_forge.Base.{
  ℕ, Bool, ◌<◌, length, ◌++◌, suc, ◌≡◌, ◌+◌, ◌∷◌, false, true, arith, sym, ◌%◌, [], any, ◌*◌, ltb,
  ◌∙◌, refl, ◌-◌, ◌/◌, ◌==◌, Bool-cases, ap, if◌then◌else◌, zero, inl, inr,
}

abbrev semicolon : ℕ
semicolon = 59

-- `str(n)` for a natural number, in front of a text: the last digit goes first.
unfoldable pub decimal_from : (fuel n : ℕ) → Text → Text
decimal_from zero n rest = rest
decimal_from (suc fuel) n rest =
    let digits = (48 + n % 10) ∷ rest in
    let more = decimal_from fuel (n / 10) digits in if ltb n 10 then digits else more

unfoldable pub decimal : ℕ → Text
decimal n = decimal_from (n + 1) n []

unfoldable pub material : (digest filename media_type : Text) → (byte_size : ℕ) → Text
material digest filename media_type byte_size =
    ((codes "sha256=" ++ (digest ++ (codes ";name=" ++ filename)))
      ++ (semicolon ∷ (codes "type=" ++ media_type)))
    ++ (semicolon ∷ (codes "size=" ++ decimal byte_size))

-- The parameter is the hexadecimal digest of a text in UTF-8.
unfoldable pub request_fingerprint :
    (Text → Text) → (digest filename media_type : Text) → (byte_size : ℕ) → Text
request_fingerprint sha256 digest filename media_type byte_size =
    sha256 (material digest filename media_type byte_size)

-- The number that digits are read as, after others
read_decimal : ℕ → Text → ℕ
read_decimal acc [] = acc
read_decimal acc (c ∷ cs) = read_decimal (acc * 10 + (c - 48)) cs

read_decimal-decimal_from :
    (fuel n : ℕ) (rest : Text)
    → n < fuel
    → read_decimal 0 (decimal_from fuel n rest) ≡ read_decimal n rest
unfolding decimal_from read_decimal
read_decimal-decimal_from zero n rest h = absurd (omega arith)
read_decimal-decimal_from (suc fuel) n rest h = elim (Bool-cases (ltb n 10)) [
  | inl one ↦ rw one (ap (λ k. read_decimal k rest) (digit n one))
  | inr more ↦ rw more (
      read_decimal-decimal_from fuel (n / 10) ((48 + n % 10) ∷ rest) (smaller n fuel more h)
      ∙ ap (λ k. read_decimal k rest) (whole n))
]
  where
    digit : (n : ℕ) → ltb n 10 ≡ true → 0 * 10 + ((48 + n % 10) - 48) ≡ n
    digit n h = ground arith

    smaller : (n fuel : ℕ) → ltb n 10 ≡ false → n < suc fuel → n / 10 < fuel
    smaller n fuel h k = ground arith

    whole : (n : ℕ) → n / 10 * 10 + ((48 + n % 10) - 48) ≡ n
    whole n = omega arith

decimal-injective : (n m : ℕ) → decimal n ≡ decimal m → n ≡ m
unfolding decimal read_decimal
decimal-injective n m h =
    sym (read_decimal-decimal_from (n + 1) n [] (omega arith))
    ∙ ap (read_decimal 0) h
    ∙ read_decimal-decimal_from (m + 1) m [] (omega arith)

abbrev pub has_semicolon : Text → Bool
has_semicolon = any (λ c. c == semicolon)

has_semicolon-append :
    (xs ys : Text)
    → has_semicolon ys ≡ false
    → has_semicolon xs ≡ false
    → has_semicolon (xs ++ ys) ≡ false
has_semicolon-append [] ys h k = h
has_semicolon-append (x ∷ xs) ys h k = ground (arith, has_semicolon-append xs ys)

has_semicolon-inside : (xs ys : Text) → has_semicolon (xs ++ (semicolon ∷ ys)) ≡ true
has_semicolon-inside [] ys = refl
has_semicolon-inside (x ∷ xs) ys = ground (arith, has_semicolon-inside xs ys)

-- The last semicolon of a text divides it in one way.
last-cancel :
    (xs xs' ys ys' : Text)
    → has_semicolon ys ≡ false
    → has_semicolon ys' ≡ false
    → xs ++ (semicolon ∷ ys) ≡ xs' ++ (semicolon ∷ ys')
    → (xs ≡ xs') × (ys ≡ ys')
last-cancel [] [] ys ys' a b h = (refl, cc)
last-cancel [] (x ∷ xs') ys ys' a b h =
    let inside = has_semicolon-inside xs' ys' in
    let same : ys ≡ xs' ++ (semicolon ∷ ys') = cc in
    let e : true ≡ false = sym inside ∙ ap has_semicolon (sym same) ∙ a in cc
last-cancel (x ∷ xs) [] ys ys' a b h =
    let inside = has_semicolon-inside xs ys in
    let same : xs ++ (semicolon ∷ ys) ≡ ys' = cc in
    let e : true ≡ false = sym inside ∙ ap has_semicolon same ∙ b in cc
last-cancel (x ∷ xs) (x' ∷ xs') ys ys' a b h =
    let (front, back) = last-cancel xs xs' ys ys' a b (cc) in (cc, back)

has_semicolon-decimal_from :
    (fuel n : ℕ) (rest : Text)
    → has_semicolon rest ≡ false
    → has_semicolon (decimal_from fuel n rest) ≡ false
unfolding decimal_from
has_semicolon-decimal_from zero n rest h = h
has_semicolon-decimal_from (suc fuel) n rest h =
    let more = has_semicolon-decimal_from fuel (n / 10) ((48 + n % 10) ∷ rest) (rw (digit n) h) in
    chosen (ltb n 10) _ _ (rw (digit n) h) more
  where
    digit : (n : ℕ) → (48 + n % 10 == semicolon) ≡ false
    digit n = ground arith

    chosen :
        (b : Bool) (s t : Text)
        → has_semicolon s ≡ false
        → has_semicolon t ≡ false
        → has_semicolon (if b then s else t) ≡ false
    chosen true s t h k = h
    chosen false s t h k = k

material-injective :
    (digest digest' filename filename' media_type media_type' : Text) (n n' : ℕ)
    → length digest ≡ length digest'
    → has_semicolon media_type ≡ false
    → has_semicolon media_type' ≡ false
    → material digest filename media_type n ≡ material digest' filename' media_type' n'
    → (digest ≡ digest') × (filename ≡ filename') × (media_type ≡ media_type') × (n ≡ n')
unfolding material decimal
material-injective digest digest' filename filename' media_type media_type' n n' l a b h =
    let (h, sizes) =
      last-cancel _ _ (codes "size=" ++ decimal n) (codes "size=" ++ decimal n')
        (has_semicolon-append (codes "size=") (decimal n)
          (has_semicolon-decimal_from (n + 1) n [] refl) refl)
        (has_semicolon-append (codes "size=") (decimal n')
          (has_semicolon-decimal_from (n' + 1) n' [] refl) refl)
        h in
    let (h, types) =
      last-cancel _ _ (codes "type=" ++ media_type) (codes "type=" ++ media_type')
        (has_semicolon-append (codes "type=") media_type a refl)
        (has_semicolon-append (codes "type=") media_type' b refl) h in
    let (digests, h) = append-cancel digest digest' _ _ l (prefix-cancel (codes "sha256=") _ _ h) in
    (
      digests,
      prefix-cancel (codes ";name=") _ _ h,
      prefix-cancel (codes "type=") _ _ types,
      decimal-injective n n' (prefix-cancel (codes "size=") _ _ sizes),
    )

-- If the hash function tells the two texts apart that are hashed, two requests have the same
-- fingerprint only if the digests of the contents, the file names, the media types and the sizes are
-- the same, whatever the file names are made of: the digests are of the same length, and no media
-- type has a semicolon.
pub request_fingerprint-injective :
    (sha256 : Text → Text) (digest digest' filename filename' media_type media_type' : Text)
    (n n' : ℕ)
    → length digest ≡ length digest'
    → has_semicolon media_type ≡ false
    → has_semicolon media_type' ≡ false
    → (sha256 (material digest filename media_type n)
          ≡ sha256 (material digest' filename' media_type' n')
        → material digest filename media_type n ≡ material digest' filename' media_type' n')
    → request_fingerprint sha256 digest filename media_type n
      ≡ request_fingerprint sha256 digest' filename' media_type' n'
    → (digest ≡ digest') × (filename ≡ filename') × (media_type ≡ media_type') × (n ≡ n')
unfolding request_fingerprint
request_fingerprint-injective sha256 digest digest' filename filename' media media' n n' l a b
      no_collision h =
    material-injective digest digest' filename filename' media media' n n' l a b (no_collision h)
