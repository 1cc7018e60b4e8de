-- ===== src/Uploads/Bounded.antt =====
-- The loop of `stream_upload` ends, and keeps what it promises of size, first and last bytes.
use workflow_forge.Uploads.Stream.{
  Bytes, Scan, last, take_in, validation_prefix_bytes, UploadStream, Read, broken, chunk,
}
use workflow_forge.Base.{
  length, ℕ, if◌then◌else◌, ◌≤◌, ◌≡◌, ◌++◌, take, ◌-◌, leb, suc, drop, ltb, ap, false, err, arith,
  min, Bool-cases, upload_validation, ◌∷◌, file_too_large, inl, zero, ◌∙◌, refl, ok, [],
  length-take, length-append, ltb→lt, ◌+◌, length-drop, take-all, leb→le, inr, sym, drop-add,
  Option, true, Bool, Result, none, lt→ltb, some, Error, ◌⊎◌, raise_if, is_empty, ◌>>=◌,
}

-- The state of the loop after these bytes
abbrev pub scanned : Bytes → Scan
scanned bytes = record {
  body = bytes;
  byte_size = length bytes;
  prefix = take validation_prefix_bytes bytes;
  suffix = last 16 bytes;
}

take-append_short :
    (n : ℕ) (xs ys : Bytes) → length xs ≤ n → take n (xs ++ ys) ≡ xs ++ take (n - length xs) ys
take-append_short n [] ys h = ap (λ k. take k ys) (omega arith)
take-append_short zero (x ∷ xs) ys h = absurd (omega arith)
take-append_short (suc n) (x ∷ xs) ys h =
    ap (◌∷◌ x) (take-append_short n xs ys (omega arith) ∙ ap (λ k. xs ++ take k ys) (omega arith))

take-append_long : (n : ℕ) (xs ys : Bytes) → n ≤ length xs → take n (xs ++ ys) ≡ take n xs
take-append_long zero xs ys h = refl
take-append_long (suc n) [] ys h = absurd (omega arith)
take-append_long (suc n) (x ∷ xs) ys h = ap (◌∷◌ x) (take-append_long n xs ys (omega arith))

drop-append_long : (n : ℕ) (xs ys : Bytes) → n ≤ length xs → drop n (xs ++ ys) ≡ drop n xs ++ ys
drop-append_long zero xs ys h = refl
drop-append_long (suc n) [] ys h = absurd (omega arith)
drop-append_long (suc n) (x ∷ xs) ys h = drop-append_long n xs ys (omega arith)

-- The first bytes grow as the loop takes them.
prefix-append :
    (n : ℕ) (xs ys : Bytes)
    → (if ltb (length (take n xs)) n
        then take n xs ++ take (n - length (take n xs)) ys
        else take n xs)
      ≡ take n (xs ++ ys)
prefix-append n xs ys = elim (Bool-cases (ltb (length (take n xs)) n)) [
  | inl short ↦
      let n_le = length-take n xs in
      let lt = ltb→lt (length (take n xs)) n short in
      let whole = take-all n xs (omega (arith, n_le, lt)) in
      rw short (
        ap (λ (t : Bytes). t ++ take (n - length t) ys) whole
        ∙ sym (take-append_short n xs ys (omega (arith, n_le, lt))))
  | inr full ↦
      let n_le = length-take n xs in
      rw full (sym (take-append_long n xs ys (filled (length (take n xs)) n (length xs) full n_le)))
]
  where
    filled : (k n m : ℕ) → ltb k n ≡ false → k ≡ min n m → n ≤ m
    filled k n m h e = ground arith

-- So do the last bytes.
last-append : (n : ℕ) (xs ys : Bytes) → last n (last n xs ++ ys) ≡ last n (xs ++ ys)
last-append n xs ys = elim (Bool-cases (leb n (length xs))) [
  | inl long ↦
      let a = length-append (last n xs) ys in
      let b = length-append xs ys in
      let c = length-drop (length xs - n) xs in
      let le = leb→le n (length xs) long in
      ap (λ (t : Bytes). drop (length (last n xs ++ ys) - n) t)
        (sym (drop-append_long (length xs - n) xs ys (omega arith)))
      ∙ drop-add (length xs - n) (length (last n xs ++ ys) - n) (xs ++ ys)
      ∙ ap (λ k. drop k (xs ++ ys)) (omega (arith, a, b, c, le))
  | inr short ↦
      ap (λ (t : Bytes). last n (t ++ ys)) (ap (λ k. drop k xs) (none_left n (length xs) short))
]
  where
    none_left : (n m : ℕ) → leb n m ≡ false → m - n ≡ 0
    none_left n m h = ground arith

guarded :
    (b : Bool) (e : Error) (s : Scan) → (raise_if b e >>= λ _. ok s) ≡ (if b then err e else ok s)
guarded true e s = refl
guarded false e s = refl

same_scan :
    (max_bytes : ℕ) (body : Bytes) (n n' : ℕ) (p p' q q' : Bytes)
    → n ≡ n'
    → p ≡ p'
    → q ≡ q'
    → (if ltb max_bytes n
        then err (upload_validation file_too_large)
        else ok (let s : Scan = record { body = body; byte_size = n; prefix = p; suffix = q } in s))
      ≡ (if ltb max_bytes n'
          then err (upload_validation file_too_large)
          else ok (
              let s : Scan = record { body = body; byte_size = n'; prefix = p'; suffix = q' } in s))
same_scan max_bytes body n n' p p' q q' a b c = cc

-- One round: the bytes are taken in, or they go over the limit.
pub take_in-scanned :
    (max_bytes : ℕ) (xs ys : Bytes)
    → take_in max_bytes ys (scanned xs) ≡ (
        if ltb max_bytes (length (xs ++ ys))
        then err (upload_validation file_too_large)
        else ok (scanned (xs ++ ys)))
unfolding take_in
take_in-scanned max_bytes xs ys =
    guarded (ltb max_bytes (length xs + length ys)) (upload_validation file_too_large) _
    ∙ same_scan max_bytes (xs ++ ys) (length xs + length ys) (length (xs ++ ys)) _ _ _ _
        (sym (length-append xs ys)) (prefix-append validation_prefix_bytes xs ys)
        (last-append 16 xs ys)

-- The bytes that a stream delivers within `n` reads, if it comes to its end and does not break.
abbrev pub prepended : Bytes → Option Bytes → Option Bytes
prepended bytes none = none
prepended bytes (some rest) = some (bytes ++ rest)

unfoldable pub delivered : (n : ℕ) → UploadStream → (k : ℕ) → Option Bytes
delivered zero stream k = none
delivered (suc n) stream k = elim (stream k) [
  | broken ↦ none
  | chunk bytes ↦ if is_empty bytes then some [] else prepended bytes (delivered n stream (k + 1))
]

-- What the loop comes to
abbrev pub loop_result : (max_bytes : ℕ) → Bytes → Result Scan
loop_result max_bytes bytes =
    if ltb max_bytes (length bytes)
    then err (upload_validation file_too_large)
    else ok (scanned bytes)

pub Read-cases : (r : Read) → (r ≡ broken) ⊎ ((bytes : Bytes) × (r ≡ chunk bytes))
Read-cases broken = inl refl
Read-cases (chunk bytes) = inr (bytes, refl)

pub over_more :
    (max_bytes : ℕ) (xs ys : Bytes)
    → ltb max_bytes (length xs) ≡ true
    → ltb max_bytes (length (xs ++ ys)) ≡ true
over_more max_bytes xs ys h =
    lt→ltb max_bytes (length (xs ++ ys)) (
      let n = length-append xs ys in
      let lt = ltb→lt max_bytes (length xs) h in omega (arith, n, lt))
