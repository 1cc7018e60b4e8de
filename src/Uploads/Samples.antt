-- ===== src/Uploads/Samples.antt =====
-- The samples that `stream_upload` keeps are enough for the tests of the signatures.
use workflow_forge.Documents.Naming.{Unicode, starts_with}
use workflow_forge.Uploads.Stream.{Bytes, StreamedUpload, last, validation_prefix_bytes}
use workflow_forge.Uploads.Metadata.{SupportedUploadType, pdf, png, jpeg, txt, html, docx}
use workflow_forge.Uploads.Content.{
  ZipInfo, ends_with, validate_pdf, validate_png, validate_jpeg, validate_streamed_content,
}
use workflow_forge.Base.{
  ℕ, ◌≤◌, drop, length, ◌≡◌, take, ◌+◌, ◌∷◌, refl, suc, ap, arith, ◌==◌, zero, [], ◌&&◌, min,
  Option, leb, ◌-◌, ltb, List, length-take, length-drop, ◌∙◌, drop-add,
}
use workflow_forge.Text.{Text, codes, text_eq}

starts_with-take :
    (n : ℕ) (part t : Bytes) → length part ≤ n → starts_with part (take n t) ≡ starts_with part t
unfolding starts_with
starts_with-take n [] t h = refl
starts_with-take zero (c ∷ part) t h = absurd (omega arith)
starts_with-take (suc n) (c ∷ part) [] h = refl
starts_with-take (suc n) (c ∷ part) (d ∷ t) h =
    ap (λ b. c == d && b) (starts_with-take n part t (omega arith))

take-take : (m n : ℕ) (t : Bytes) → m ≤ n → take m (take n t) ≡ take m t
take-take zero n t h = refl
take-take (suc m) zero t h = absurd (omega arith)
take-take (suc m) (suc n) [] h = refl
take-take (suc m) (suc n) (d ∷ t) h = ap (◌∷◌ d) (take-take m n t (omega arith))

take-drop-take :
    (m k n : ℕ) (t : Bytes) → m + k ≤ n → take k (drop m (take n t)) ≡ take k (drop m t)
take-drop-take zero k n t h = take-take k n t (omega arith)
take-drop-take (suc m) k zero t h = absurd (omega arith)
take-drop-take (suc m) k (suc n) [] h = refl
take-drop-take (suc m) k (suc n) (d ∷ t) h = take-drop-take m k n t (omega arith)

ends_with-last :
    (n : ℕ) (part t : Bytes) → length part ≤ n → ends_with part (last n t) ≡ ends_with part t
ends_with-last n part t h =
    let size = length-drop (length t - n) t in
    ap (λ (k : ℕ). leb (length part) k && text_eq (drop (k - length part) (last n t)) part) size
    ∙ ap (λ (u : Bytes). leb (length part) (length t - (length t - n)) && text_eq u part)
        (drop-add (length t - n) (length t - (length t - n) - length part) t
          ∙ ap (λ k. drop k t) (omega arith))
    ∙ ap (λ b. b && text_eq (drop (length t - length part) t) part)
        (same_test (length part) n (length t) h)
  where
    same_test : (p n k : ℕ) → p ≤ n → leb p (k - (k - n)) ≡ leb p k
    same_test p n k h = ground arith

-- The samples of these bytes
abbrev pub samples_of : Bytes → Text → StreamedUpload
samples_of body digest = record {
  body = body;
  content_hash = digest;
  byte_size = length body;
  prefix = take validation_prefix_bytes body;
  suffix = last 16 body;
}

-- An upload that holds all bytes in both samples
abbrev pub whole_of : Bytes → Text → StreamedUpload
whole_of body digest = record {
  body = body;
  content_hash = digest;
  byte_size = length body;
  prefix = body;
  suffix = body;
}

short_test : (k n : ℕ) → k ≡ min 8192 n → ltb k 8 ≡ ltb n 8
short_test k n h = ground arith

validate_pdf-samples :
    (body : Bytes) → validate_pdf (take validation_prefix_bytes body) ≡ validate_pdf body
unfolding validate_pdf
validate_pdf-samples body =
    let prefix = take validation_prefix_bytes body in
    let signed = starts_with-take validation_prefix_bytes (codes "%PDF-") body (omega arith) in
    let short =
      short_test (length prefix) (length body) (length-take validation_prefix_bytes body) in
    let version = take-drop-take 5 3 validation_prefix_bytes body (omega arith) in
    rw signed (rw short (rw version refl))

-- The tests of an upload come to the same with the samples, the first 8192 bytes and the last 16, as
-- they would with all bytes of the file in both places, for every type of file.
pub validate_streamed_content-samples :
    (unicode : Unicode) (read_zip : Bytes → Option (List ZipInfo)) (type : SupportedUploadType)
    (body : Bytes) (digest : Text)
    → validate_streamed_content unicode read_zip type (samples_of body digest)
      ≡ validate_streamed_content unicode read_zip type (whole_of body digest)
unfolding validate_streamed_content
validate_streamed_content-samples unicode read_zip pdf body digest = validate_pdf-samples body
validate_streamed_content-samples unicode read_zip png body digest =
    unfold validate_png in
    rw
      (starts_with-take validation_prefix_bytes
        (0x89 ∷ 0x50 ∷ 0x4e ∷ 0x47 ∷ 0x0d ∷ 0x0a ∷ 0x1a ∷ 0x0a ∷ []) body (omega arith))
      refl
validate_streamed_content-samples unicode read_zip jpeg body digest =
    unfold validate_jpeg in
    rw (starts_with-take validation_prefix_bytes (0xff ∷ 0xd8 ∷ []) body (omega arith))
      (rw (ends_with-last 16 (0xff ∷ 0xd9 ∷ []) body (omega arith)) refl)
validate_streamed_content-samples unicode read_zip txt body digest = refl
validate_streamed_content-samples unicode read_zip html body digest = refl
validate_streamed_content-samples unicode read_zip docx body digest = refl
