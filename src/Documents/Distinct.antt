-- ===== src/Documents/Distinct.antt =====
-- Storage keys keep the contents of different organizations apart.
use workflow_forge.Documents.Keys.{
  hex_digit, hex, hyphen, uuid_text, storage_object_key, for_document_content, document_key_text,
  document_prefix, validate_document_uuid, is_storage_key, is_safe_segment, segments,
}
use workflow_forge.Text.{Text, codes}
use workflow_forge.Base.{
  ℕ, ◌++◌, length, take, ◌<◌, ◌≡◌, ◌∷◌, ◌∙◌, suc, drop, arith, [], length-append, ◌/◌, sym, zero,
  length-take, refl, ◌%◌, ap, length-drop, ◌+◌, take-append-drop, min, ◌^◌, ◌-◌, drop-add, ok,
  >>=-eq-ok, raise_if, ◌||◌, not, all, ok-injective,
}
use workflow_forge.Documents.Naming.{slash, contains, dot, backslash}

-- `n` has at most `k` digits of base 16.
abbrev pub HasDigits : ℕ → ℕ → Type 0
HasDigits zero n = n ≡ 0
HasDigits (suc k) n = HasDigits k (n / 16)

pub append-cancel :
    (xs ys us vs : Text) → length xs ≡ length ys → xs ++ us ≡ ys ++ vs → (xs ≡ ys) × (us ≡ vs)
append-cancel [] [] us vs n h = (refl, h)
append-cancel [] (y ∷ ys) us vs n h = absurd (omega arith)
append-cancel (x ∷ xs) [] us vs n h = absurd (omega arith)
append-cancel (x ∷ xs) (y ∷ ys) us vs n h =
    let (a, b) = append-cancel xs ys us vs (omega arith) (cc) in (cc, b)

pub prefix-cancel : (ps us vs : Text) → ps ++ us ≡ ps ++ vs → us ≡ vs
prefix-cancel [] us vs h = h
prefix-cancel (p ∷ ps) us vs h = prefix-cancel ps us vs (cc)

length-hex : (k n : ℕ) → length (hex k n) ≡ k
unfolding hex
length-hex zero n = refl
length-hex (suc k) n =
    length-append (hex k (n / 16)) (hex_digit (n % 16) ∷ [])
    ∙ ap (λ m. m + 1) (length-hex k (n / 16))
    ∙ omega arith

hex_digit-injective : (a b : ℕ) → a < 16 → b < 16 → hex_digit a ≡ hex_digit b → a ≡ b
unfolding hex_digit
hex_digit-injective a b p q h = ground arith

hex-injective : (k n m : ℕ) → HasDigits k n → HasDigits k m → hex k n ≡ hex k m → n ≡ m
unfolding hex
hex-injective zero n m p q h = p ∙ sym q
hex-injective (suc k) n m p q h =
    let (front, last) =
      append-cancel (hex k (n / 16)) (hex k (m / 16)) (hex_digit (n % 16) ∷ [])
        (hex_digit (m % 16) ∷ []) (length-hex k (n / 16) ∙ sym (length-hex k (m / 16))) h in
    let high = hex-injective k (n / 16) (m / 16) p q front in
    let low =
      hex_digit-injective (n % 16) (m % 16) (omega arith) (omega arith)
        (let e : hex_digit (n % 16) ≡ hex_digit (m % 16) = cc in e) in
    omega (arith, high, low)

length-uuid_text : (n : ℕ) → length (uuid_text n) ≡ 36
unfolding uuid_text
length-uuid_text n = grouped (hex 32 n) (length-hex 32 n)
  where
    grouped :
        (d : Text)
        → length d ≡ 32
        → length (
            take 8 d
            ++ (hyphen
                ∷ (take 4 (drop 8 d)
                    ++ (hyphen
                        ∷ (take 4 (drop 12 d)
                            ++ (hyphen ∷ (take 4 (drop 16 d) ++ (hyphen ∷ drop 20 d))))))))
          ≡ 36
    grouped d h = omega (arith, length-append {0}, length-take, length-drop)

rejoin :
    (n k : ℕ) (d e : Text)
    → take k (drop n d) ≡ take k (drop n e)
    → drop (n + k) d ≡ drop (n + k) e
    → drop n d ≡ drop n e
rejoin n k d e h r =
    sym (take-append-drop k (drop n d))
    ∙ ap (λ t. t ++ drop k (drop n d)) h
    ∙ ap (λ t. take k (drop n e) ++ t) (drop-add n k d ∙ r ∙ sym (drop-add n k e))
    ∙ take-append-drop k (drop n e)

piece :
    (n k : ℕ) (d e : Text)
    → length d ≡ length e
    → length (take k (drop n d)) ≡ length (take k (drop n e))
piece n k d e h =
    length-take k (drop n d)
    ∙ ap (min k) (length-drop n d ∙ ap (λ m. m - n) h ∙ sym (length-drop n e))
    ∙ sym (length-take k (drop n e))

-- The groups of digits, separated by hyphens, determine the digits.
regroup :
    (d e : Text)
    → length d ≡ length e
    → take 8 d
        ++ (hyphen
            ∷ (take 4 (drop 8 d)
                ++ (hyphen
                    ∷ (take 4 (drop 12 d)
                        ++ (hyphen ∷ (take 4 (drop 16 d) ++ (hyphen ∷ drop 20 d)))))))
      ≡ take 8 e
        ++ (hyphen
            ∷ (take 4 (drop 8 e)
                ++ (hyphen
                    ∷ (take 4 (drop 12 e)
                        ++ (hyphen ∷ (take 4 (drop 16 e) ++ (hyphen ∷ drop 20 e)))))))
    → d ≡ e
regroup d e n h =
    let (a, h) = append-cancel (take 8 d) (take 8 e) _ _ (piece 0 8 d e n) h in
    let (b, h) =
      append-cancel (take 4 (drop 8 d)) (take 4 (drop 8 e)) _ _ (piece 8 4 d e n)
        (prefix-cancel (hyphen ∷ []) _ _ h) in
    let (c, h) =
      append-cancel (take 4 (drop 12 d)) (take 4 (drop 12 e)) _ _ (piece 12 4 d e n)
        (prefix-cancel (hyphen ∷ []) _ _ h) in
    let (f, h) =
      append-cancel (take 4 (drop 16 d)) (take 4 (drop 16 e)) _ _ (piece 16 4 d e n)
        (prefix-cancel (hyphen ∷ []) _ _ h) in
    let g = prefix-cancel (hyphen ∷ []) _ _ h in
    rejoin 0 8 d e a (rejoin 8 4 d e b (rejoin 12 4 d e c (rejoin 16 4 d e f g)))

pub uuid_text-injective : (n m : ℕ) → n < 2 ^ 128 → m < 2 ^ 128 → uuid_text n ≡ uuid_text m → n ≡ m
unfolding uuid_text
uuid_text-injective n m p q h =
    hex-injective 32 n m (small n p) (small m q)
      (regroup (hex 32 n) (hex 32 m) (length-hex 32 n ∙ sym (length-hex 32 m)) h)
  where
    small : (k : ℕ) → k < 2 ^ 128 → HasDigits 32 k
    small k h = omega arith

same_length :
    (front a b after : Text)
    → length a ≡ length b
    → length (front ++ (a ++ after)) ≡ length (front ++ (b ++ after))
same_length front a b after h =
    length-append front (a ++ after)
    ∙ ap (λ n. length front + n)
        (length-append a after ∙ ap (λ n. n + length after) h ∙ sym (length-append b after))
    ∙ sym (length-append front (b ++ after))

document_key_text-injective :
    (o p : ℕ) (digest digest' : Text)
    → o < 2 ^ 128
    → p < 2 ^ 128
    → length digest ≡ length digest'
    → document_key_text o digest ≡ document_key_text p digest'
    → (o ≡ p) × (digest ≡ digest')
unfolding document_key_text document_prefix
document_key_text-injective o p digest digest' a b n h =
    let (prefix, rest) =
      append-cancel (codes "documents/" ++ uuid_text o ++ codes "/sha256/")
        (codes "documents/" ++ uuid_text p ++ codes "/sha256/") _ _
        (same_length (codes "documents/") (uuid_text o) (uuid_text p) (codes "/sha256/")
          (length-uuid_text o ∙ sym (length-uuid_text p)))
        (h) in
    let (owner, _) =
      append-cancel (uuid_text o) (uuid_text p) (codes "/sha256/") (codes "/sha256/")
        (length-uuid_text o ∙ sym (length-uuid_text p))
        (prefix-cancel (codes "documents/") _ _ prefix) in
    let (_, rest) =
      append-cancel (take 2 digest) (take 2 digest') _ _ (piece 0 2 digest digest' n) rest in
    let (_, rest) =
      append-cancel (take 2 (drop 2 digest)) (take 2 (drop 2 digest')) _ _
        (piece 2 2 digest digest' n) (prefix-cancel (slash ∷ []) _ _ rest) in
    (uuid_text-injective o p a b owner, prefix-cancel (slash ∷ []) _ _ rest)

storage_object_key-eq-ok : (t key : Text) → storage_object_key t ≡ ok key → key ≡ t
unfolding storage_object_key
storage_object_key-eq-ok t key h =
    let (_, _, h) =
      >>=-eq-ok
        (raise_if
          (contains (dot ∷ dot ∷ []) t
            || contains (backslash ∷ []) t
            || contains (slash ∷ slash ∷ []) t)
          _)
        _ h in
    let (_, _, h) = >>=-eq-ok (raise_if (not (is_storage_key t)) _) _ h in
    let (_, _, h) = >>=-eq-ok (raise_if (not (all is_safe_segment (segments t))) _) _ h in
    sym (ok-injective h)

for_document_content-key :
    (o : ℕ) (digest key : Text)
    → for_document_content o digest ≡ ok key
    → key ≡ document_key_text o digest
unfolding for_document_content
for_document_content-key o digest key h =
    let (_, _, h) = >>=-eq-ok (validate_document_uuid o) _ h in
    storage_object_key-eq-ok (document_key_text o digest) key h

-- The key of an organization's content names both: two keys that `for_document_content` returns are
-- equal only if the organizations are the same and the digests are the same. A UUID has 128 bits.
pub document_key-injective :
    (o p : ℕ) (digest digest' key : Text)
    → o < 2 ^ 128
    → p < 2 ^ 128
    → length digest ≡ length digest'
    → for_document_content o digest ≡ ok key
    → for_document_content p digest' ≡ ok key
    → (o ≡ p) × (digest ≡ digest')
document_key-injective o p digest digest' key a b n h k =
    let same =
      sym (for_document_content-key o digest key h) ∙ for_document_content-key p digest' key k in
    document_key_text-injective o p digest digest' a b n same
