-- ===== src/Uploads/Ends.antt =====
-- The loop of `stream_upload` ends for every stream, and what it comes to.
use mathlib.Core.List.{append_assoc, append-nil}
use workflow_forge.Uploads.Stream.{Bytes, UploadStream, Scan, read_loop, chunk, broken}
use workflow_forge.Uploads.Bounded.{
  scanned, delivered, loop_result, take_in-scanned, Read-cases, prepended, over_more,
}
use workflow_forge.Base.{
  ℕ, is_empty, ltb, ◌≡◌, ◌≤◌, ◌<◌, length, true, suc, false, some, ◌++◌, ◌+◌, arith, err, ok,
  Option, Result, [], ◌∷◌, sym, length-append, upload_validation, file_too_large,
  stream_read_failed, some-injective, refl, inl, none, inr, Bool-cases, ◌∙◌, ap, zero,
}

module _ (max_bytes : ℕ) (stream : UploadStream) where
  -- The four rounds of the loop
  pub loop-broken :
      (f k : ℕ) (s : Scan)
      → stream k ≡ broken
      → read_loop (suc f) max_bytes stream k s ≡ some (err (upload_validation stream_read_failed))
  unfolding read_loop
  loop-broken f k s e = rw (e, read_loop) refl

  pub loop_end :
      (f k : ℕ) (s : Scan) (bytes : Bytes)
      → stream k ≡ chunk bytes
      → is_empty bytes ≡ true
      → read_loop (suc f) max_bytes stream k s ≡ some (ok s)
  unfolding read_loop
  loop_end f k s bytes e b = rw (e, read_loop) (rw b refl)

  pub loop_over :
      (f k : ℕ) (xs bytes : Bytes)
      → stream k ≡ chunk bytes
      → is_empty bytes ≡ false
      → ltb max_bytes (length (xs ++ bytes)) ≡ true
      → read_loop (suc f) max_bytes stream k (scanned xs)
        ≡ some (err (upload_validation file_too_large))
  unfolding read_loop
  loop_over f k xs bytes e b over =
      rw (e, read_loop) (rw b (rw (take_in-scanned max_bytes xs bytes) (rw over refl)))

  pub loop_more :
      (f k : ℕ) (xs bytes : Bytes)
      → stream k ≡ chunk bytes
      → is_empty bytes ≡ false
      → ltb max_bytes (length (xs ++ bytes)) ≡ false
      → read_loop (suc f) max_bytes stream k (scanned xs)
        ≡ read_loop f max_bytes stream (k + 1) (scanned (xs ++ bytes))
  unfolding read_loop
  loop_more f k xs bytes e b fits =
      rw (e, read_loop) (rw b (rw (take_in-scanned max_bytes xs bytes) (rw fits refl)))

  longer : (xs bytes : Bytes) → is_empty bytes ≡ false → length xs < length (xs ++ bytes)
  longer xs [] h = absurd (cc)
  longer xs (b ∷ bytes) h = omega (arith, length-append xs (b ∷ bytes))

  pub within : (n : ℕ) → ltb max_bytes n ≡ false → n ≤ max_bytes
  within n h = ground arith

  -- With a round for each byte up to the limit, and one more, the loop ends.
  pub loop_total :
      (f k : ℕ) (xs : Bytes)
      → max_bytes < length xs + f
      → length xs ≤ max_bytes
      → (r : Result Scan) × (read_loop f max_bytes stream k (scanned xs) ≡ some r)
  loop_total zero k xs a b = absurd (omega arith)
  loop_total (suc f) k xs a b = elim (Read-cases (stream k)) [
    | inl e ↦ (err (upload_validation stream_read_failed), loop-broken f k (scanned xs) e)
    | inr (bytes, e) ↦ elim (Bool-cases (is_empty bytes)) [
      | inl end ↦ (ok (scanned xs), loop_end f k (scanned xs) bytes e end)
      | inr more ↦ elim (Bool-cases (ltb max_bytes (length (xs ++ bytes)))) [
        | inl over ↦ (err (upload_validation file_too_large), loop_over f k xs bytes e more over)
        | inr fits ↦
            let grown = longer xs bytes more in
            let (r, r_eq) =
              loop_total f (k + 1) (xs ++ bytes) (omega (arith, grown))
                (within (length (xs ++ bytes)) fits) in
            (r, loop_more f k xs bytes e more fits ∙ r_eq)
      ]
    ]
  ]

  delivered-more :
      (n k : ℕ) (bytes body : Bytes)
      → stream k ≡ chunk bytes
      → is_empty bytes ≡ false
      → delivered (suc n) stream k ≡ some body
      → (rest : Bytes) × (delivered n stream (k + 1) ≡ some rest) × (body ≡ bytes ++ rest)
  unfolding delivered
  delivered-more n k bytes body e b h =
      split (delivered n stream (k + 1)) refl (rw b at (rw (e, delivered) at h))
    where
      split :
          (o : Option Bytes)
          → delivered n stream (k + 1) ≡ o
          → prepended bytes o ≡ some body
          → (rest : Bytes) × (delivered n stream (k + 1) ≡ some rest) × (body ≡ bytes ++ rest)
      split none d h = cc
      split (some rest) d h = (rest, d, cc)

  delivered_end :
      (n k : ℕ) (bytes body : Bytes)
      → stream k ≡ chunk bytes
      → is_empty bytes ≡ true
      → delivered (suc n) stream k ≡ some body
      → body ≡ []
  unfolding delivered
  delivered_end n k bytes body e b h = sym (some-injective (rw b at (rw (e, delivered) at h)))

  delivered-broken :
      (n k : ℕ) (body : Bytes)
      → stream k ≡ broken
      → delivered (suc n) stream k ≡ some body
      → true ≡ false
  unfolding delivered
  delivered-broken n k body e h = let h' = rw (e, delivered) at h in cc

  within_test : (n : ℕ) → n ≤ max_bytes → ltb max_bytes n ≡ false
  within_test n h = ground arith

  pub loop_delivered :
      (f n k : ℕ) (xs body : Bytes)
      → max_bytes < length xs + f
      → length xs ≤ max_bytes
      → delivered n stream k ≡ some body
      → read_loop f max_bytes stream k (scanned xs) ≡ some (loop_result max_bytes (xs ++ body))
  loop_delivered zero n k xs body a b d = absurd (omega arith)
  loop_delivered (suc f) zero k xs body a b d = unfold delivered in cc
  loop_delivered (suc f) (suc n) k xs body a b d = elim (Read-cases (stream k)) [
    | inl e ↦ let wrong = delivered-broken n k body e d in cc
    | inr (bytes, e) ↦ elim (Bool-cases (is_empty bytes)) [
      | inl end ↦
          loop_end f k (scanned xs) bytes e end
          ∙ ap some (
              sym (rw (within_test (length xs) b) refl)
              ∙ ap (loop_result max_bytes) (
                  sym (append-nil xs)
                  ∙ ap (λ t. xs ++ t) (sym (delivered_end n k bytes body e end d))))
      | inr more ↦
          let (rest, later, whole) = delivered-more n k bytes body e more d in
          elim (Bool-cases (ltb max_bytes (length (xs ++ bytes)))) [
            | inl over ↦
                loop_over f k xs bytes e more over
                ∙ ap some (
                    sym (rw (over_more max_bytes (xs ++ bytes) rest over) refl)
                    ∙ ap (loop_result max_bytes)
                        (append_assoc xs bytes rest ∙ ap (λ t. xs ++ t) (sym whole)))
            | inr fits ↦
                let grown = longer xs bytes more in
                loop_more f k xs bytes e more fits
                ∙ loop_delivered f n (k + 1) (xs ++ bytes) rest (omega (arith, grown))
                    (within (length (xs ++ bytes)) fits) later
                ∙ ap (λ t. some (loop_result max_bytes t))
                    (append_assoc xs bytes rest ∙ ap (λ t. xs ++ t) (sym whole))
          ]
    ]
  ]
