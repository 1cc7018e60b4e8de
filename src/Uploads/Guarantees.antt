-- ===== src/Uploads/Guarantees.antt =====
-- What `stream_upload` promises.
use mathlib.Core.Option
use workflow_forge.Uploads.Stream.{
  Bytes, UploadStream, Scan, StreamedUpload, last, read_loop, enough, finish, stream_upload,
  validation_prefix_bytes,
}
use workflow_forge.Uploads.Bounded.{scanned, delivered, loop_result, Read-cases}
use workflow_forge.Uploads.Ends.{
  loop-broken, loop_end, loop_over, loop_more, loop_total, loop_delivered, within,
}
use workflow_forge.Base.{
  Error, ℕ, ◌≡◌, Option, length, Result, ◌≤◌, some, ◌>>=◌, ok, [], suc, take, Bool-cases, none, err,
  if◌then◌else◌, raise_if, ap, inl, ltb, arith, ◌==◌, true, sym, false, >>=-eq-ok, inr,
  upload_validation, ◌∙◌, file_too_large, ◌∷◌, is_empty, some-injective, ◌++◌, length-take,
  empty_file, refl, length-drop, ◌+◌, ◌-◌, zero, ok-transport,
}
use workflow_forge.Documents.Naming.{Unicode}
use workflow_forge.Text.{Text}
use workflow_forge.Documents.Keys.{content_hash}

-- A state of the loop within the limit
pub record Within (max_bytes : ℕ) (s : Scan) : Type 0 where
  pub bytes : Bytes
  pub seen : s ≡ scanned bytes
  pub small : length bytes ≤ max_bytes

not_returned :
    (e : Error) (s : Scan)
    → ◌≡◌ {A = Option (Result Scan)} (some (err e)) (some (ok s))
    → true ≡ false
not_returned e s h = cc

returned_scan : (a s : Scan) → ◌≡◌ {A = Option (Result Scan)} (some (ok a)) (some (ok s)) → s ≡ a
returned_scan a s h = cc

not_out_of_fuel : (s : Scan) → ◌≡◌ {A = Option (Result Scan)} none (some (ok s)) → true ≡ false
not_out_of_fuel s h = cc

-- Whatever the loop returns is within the limit.
loop-Within :
    (max_bytes : ℕ) (stream : UploadStream) (f k : ℕ) (xs : Bytes) (s : Scan)
    → length xs ≤ max_bytes
    → read_loop f max_bytes stream k (scanned xs) ≡ some (ok s)
    → Within max_bytes s
loop-Within max_bytes stream zero k xs s b h =
    let wrong = not_out_of_fuel s (unfold read_loop in h) in absurd (cc)
loop-Within max_bytes stream (suc f) k xs s b h = elim (Read-cases (stream k)) [
  | inl e ↦
      let wrong = not_returned _ s (sym (loop-broken max_bytes stream f k (scanned xs) e) ∙ h) in
      absurd (cc)
  | inr (bytes, e) ↦ elim (Bool-cases (is_empty bytes)) [
    | inl end ↦ record {
      bytes = xs;
      seen =
          returned_scan (scanned xs) s
            (sym (loop_end max_bytes stream f k (scanned xs) bytes e end) ∙ h);
      small = b;
    }
    | inr more ↦ elim (Bool-cases (ltb max_bytes (length (xs ++ bytes)))) [
      | inl over ↦
          let wrong =
            not_returned _ s (sym (loop_over max_bytes stream f k xs bytes e more over) ∙ h) in
          absurd (cc)
      | inr fits ↦
          loop-Within max_bytes stream f (k + 1) (xs ++ bytes) s
            (within max_bytes stream (length (xs ++ bytes)) fits)
            (sym (loop_more max_bytes stream f k xs bytes e more fits) ∙ h)
    ]
  ]
]

module _ (unicode : Unicode) (sha256 : Bytes → Text) where
  -- The upload ends for every stream, also for one that never comes to its end: within a read for
  -- each byte that the limit allows, and one more, it returns or raises.
  pub stream_upload_total :
      (max_bytes : ℕ) (stream : UploadStream)
      → (r : Result StreamedUpload) × (stream_upload unicode sha256 max_bytes stream ≡ some r)
  unfolding stream_upload
  stream_upload_total max_bytes stream =
      let (r, r_eq) =
        loop_total max_bytes stream (enough max_bytes) 0 [] (omega arith) (omega arith) in
      (r >>= finish unicode sha256, ap (Option.map (λ q. q >>= finish unicode sha256)) r_eq)

  -- The upload that the bytes of a stream make
  abbrev pub expected_upload : (max_bytes : ℕ) → Bytes → Result StreamedUpload
  expected_upload max_bytes body =
      if ltb max_bytes (length body)
      then err (upload_validation file_too_large)
      else if is_empty body
      then err (upload_validation empty_file)
      else do
        digest ← content_hash unicode (sha256 body)
        ok (record {
          body = body;
          content_hash = digest;
          byte_size = length body;
          prefix = take validation_prefix_bytes body;
          suffix = last 16 body;
        })

  finish-expected :
      (max_bytes : ℕ) (body : Bytes)
      → (loop_result max_bytes body >>= finish unicode sha256) ≡ expected_upload max_bytes body
  unfolding finish
  finish-expected max_bytes [] = elim (Bool-cases (ltb max_bytes 0)) [
    | inl e ↦ rw e refl
    | inr e ↦ rw e refl
  ]
  finish-expected max_bytes (b ∷ body) = elim (Bool-cases (ltb max_bytes (length (b ∷ body)))) [
    | inl e ↦ rw e refl
    | inr e ↦ rw e (rw (positive (length body)) refl)
  ]
    where
      positive : (n : ℕ) → (suc n == 0) ≡ false
      positive n = ground arith

  -- A stream that comes to its end, in whatever chunks it delivers its bytes, makes the upload of
  -- these bytes: the file is too large if there are more of them than the limit, empty if there are
  -- none, and otherwise returned with the hash of all bytes, their number, the first 8192 of them and
  -- the last 16.
  pub stream_upload-delivered :
      (max_bytes n : ℕ) (stream : UploadStream) (body : Bytes)
      → delivered n stream 0 ≡ some body
      → stream_upload unicode sha256 max_bytes stream ≡ some (expected_upload max_bytes body)
  unfolding stream_upload
  stream_upload-delivered max_bytes n stream body d =
      ap (Option.map (λ q. q >>= finish unicode sha256)) (
        loop_delivered max_bytes stream (enough max_bytes) n 0 [] body (omega arith) (omega arith)
          d)
      ∙ ap some (finish-expected max_bytes body)

  -- What an upload that is returned may be
  pub record IsBoundedUpload (max_bytes : ℕ) (u : StreamedUpload) : Type 0 where
    pub not_empty : 1 ≤ u.byte_size
    pub limited : u.byte_size ≤ max_bytes
    pub counted : u.byte_size ≡ length u.body
    pub first : u.prefix ≡ take validation_prefix_bytes u.body
    pub first_bounded : length u.prefix ≤ 8192
    pub last_bounded : length u.suffix ≤ 16

  finish-IsBoundedUpload :
      (max_bytes : ℕ) (s : Scan) (u : StreamedUpload)
      → Within max_bytes s
      → finish unicode sha256 s ≡ ok u
      → IsBoundedUpload max_bytes u
  unfolding finish
  finish-IsBoundedUpload max_bytes s u w h =
      let bytes = w.bytes in
      let small = w.small in
      let (_, some_byte, h) = >>=-eq-ok (raise_if (s.byte_size == 0) _) _ h in
      let (digest, _, h) = >>=-eq-ok (content_hash unicode (sha256 s.body)) _ h in
      let size = ap (λ (t : Scan). t.byte_size) w.seen in
      let body = ap (λ (t : Scan). t.body) w.seen in
      let prefix = ap (λ (t : Scan). t.prefix) w.seen in
      let suffix = ap (λ (t : Scan). t.suffix) w.seen in
      let n = ap (λ (t : Bytes). length t) prefix ∙ length-take validation_prefix_bytes bytes in
      let m = ap (λ (t : Bytes). length t) suffix ∙ length-drop (length bytes - 16) bytes in
      ok-transport (IsBoundedUpload max_bytes) h (record {
        not_empty = positive s.byte_size _ some_byte;
        limited = omega (arith, size, small);
        counted = size ∙ ap (λ (t : Bytes). length t) (sym body);
        first = prefix ∙ ap (take validation_prefix_bytes) (sym body);
        first_bounded = omega (arith, n);
        last_bounded = omega (arith, m);
      })
    where
      positive : (n : ℕ) (e : Error) {u : Unit {0}} → raise_if (n == 0) e ≡ ok u → 1 ≤ n
      positive n e h = ground arith

  -- An upload that is returned has at least one byte and at most as many as the limit; its size is
  -- the number of its bytes, its prefix are the first 8192 bytes at most, and its suffix has at most
  -- 16 bytes.
  pub stream_upload_bounds :
      (max_bytes : ℕ) (stream : UploadStream) (u : StreamedUpload)
      → stream_upload unicode sha256 max_bytes stream ≡ some (ok u)
      → IsBoundedUpload max_bytes u
  unfolding stream_upload
  stream_upload_bounds max_bytes stream u h =
      let (r, r_eq) =
        loop_total max_bytes stream (enough max_bytes) 0 [] (omega arith) (omega arith) in
      let same = sym (ap (Option.map (λ q. q >>= finish unicode sha256)) r_eq) ∙ h in
      let (s, s_ok, done) = >>=-eq-ok r (finish unicode sha256) (some-injective same) in
      finish-IsBoundedUpload max_bytes s u
        (loop-Within max_bytes stream (enough max_bytes) 0 [] s (omega arith) (r_eq ∙ ap some s_ok))
        done
