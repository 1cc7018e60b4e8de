-- ===== src/Uploads/Consistent.antt =====
-- An accepted upload has a safe name, and its type, extension and declared media type agree.
use workflow_forge.Documents.Naming.{
  Unicode, filename_form, is_path_name, normalize_media_type, dot, after_last, is_media_type,
}
use workflow_forge.Documents.Filename.{
  IsSafeName, normalize_original_filename-IsSafeName, after_last-no_separator,
}
use workflow_forge.Documents.Naming.{normalize_original_filename}
use workflow_forge.Uploads.Metadata.{
  SupportedUploadType, pdf, png, jpeg, txt, html, docx, UploadTypePolicy, NormalizedUploadMetadata,
  policies, policy_from, policy_for_extension, is_control, normalize_upload_filename, extension_of,
  normalize_upload_metadata, or_unsupported, or_empty,
}
use workflow_forge.Base.{
  List, All, ◌≡◌, any, false, ◌∷◌, true, ok, ◌⊎◌, Bool, Result, Bool-cases, [], Option, err,
  >>=-eq-ok, Error, ◌||◌, inl, arith, some, ltb, sym, ok-transport, raise_if, refl, length, not,
  inr, raise_if-eq-ok, none, ◌++◌, ok-injective, ◌==◌, ◌≢◌, is_empty, ℕ, ap,
}
use workflow_forge.Text.{Text, space, codes, text_eq, strip}

text_eq_sound : (s t : Text) → text_eq s t ≡ true → s ≡ t
text_eq_sound [] [] h = refl
text_eq_sound [] (d ∷ t) h = cc
text_eq_sound (c ∷ s) [] h = cc
text_eq_sound (c ∷ s) (d ∷ t) h = ground (arith, text_eq_sound s t)

-- What the service accepts: the extensions and the media type of each type of file
abbrev pub Matches : SupportedUploadType → (extension media_type : Text) → Type 0
Matches pdf e m = (e ≡ codes ".pdf") × (m ≡ codes "application/pdf")
Matches png e m = (e ≡ codes ".png") × (m ≡ codes "image/png")
Matches jpeg e m = ((e ≡ codes ".jpg") ⊎ (e ≡ codes ".jpeg")) × (m ≡ codes "image/jpeg")
Matches txt e m = (e ≡ codes ".txt") × (m ≡ codes "text/plain")
Matches html e m = ((e ≡ codes ".html") ⊎ (e ≡ codes ".htm")) × (m ≡ codes "text/html")
Matches docx e m =
    (e ≡ codes ".docx")
    × (m ≡ codes "application/vnd.openxmlformats-officedocument.wordprocessingml.document")

one : (a e : Text) → any (λ t. text_eq t e) (a ∷ []) ≡ true → e ≡ a
one a e h = sym (text_eq_sound a e (only (text_eq a e) h))
  where
    only : (b : Bool) → (b || false) ≡ true → b ≡ true
    only b h = ground arith

either : (a b e : Text) → any (λ t. text_eq t e) (a ∷ b ∷ []) ≡ true → (e ≡ a) ⊎ (e ≡ b)
either a b e h = elim (Bool-cases (text_eq a e)) [
  | inl first ↦ inl (sym (text_eq_sound a e first))
  | inr second ↦ inr (one b e (rw second at h))
]

Sound : UploadTypePolicy → Type 0
Sound p =
    (e m : Text)
    → any (λ t. text_eq t e) p.extensions ≡ true
    → m ≡ p.media_type
    → Matches p.upload_type e m

policies-Sound : All Sound policies
unfolding policies Sound
policies-Sound = (
  λ e m h k. (one (codes ".pdf") e h, k),
  (
    λ e m h k. (one (codes ".png") e h, k),
    (
      λ e m h k. (either (codes ".jpg") (codes ".jpeg") e h, k),
      (
        λ e m h k. (one (codes ".txt") e h, k),
        (
          λ e m h k. (either (codes ".html") (codes ".htm") e h, k),
          (λ e m h k. (one (codes ".docx") e h, k), tt),
        ),
      ),
    ),
  ),
)

policy_from-All :
    (P : UploadTypePolicy → Type 0) (ps : List UploadTypePolicy) (e : Text) (p : UploadTypePolicy)
    → All P ps
    → policy_from ps e ≡ ok p
    → P p × (any (λ t. text_eq t e) p.extensions ≡ true)
unfolding policy_from
policy_from-All P [] e p a h = cc
policy_from-All P (q ∷ ps) e p a h = elim (Bool-cases (any (λ t. text_eq t e) q.extensions)) [
  | inl hit ↦
      ok-transport (λ (r : UploadTypePolicy). P r × (any (λ t. text_eq t e) r.extensions ≡ true))
        (rw (hit, policy_from) at h) (a.0, hit)
  | inr miss ↦ policy_from-All P ps e p a.1 (rw (miss, policy_from) at h)
]

-- What follows the last dot of a name, with what stands before the dot
pub record HasExtension (name rest : Text) : Type 0 where
  pub stem : Text
  pub divided : name ≡ stem ++ (dot ∷ rest)
  pub last : All (λ c. c ≢ dot) rest

after_last-divided :
    (s : Text)
    → any (λ c. c == dot) s ≡ true
    → (stem : Text) × (s ≡ stem ++ (dot ∷ after_last dot s))
unfolding after_last
after_last-divided [] h = cc
after_last-divided (c ∷ s) h = elim (Bool-cases (any (λ d. d == dot) s)) [
  | inl later ↦
      let (stem, e) = after_last-divided s later in (c ∷ stem, rw later (ap (λ t. c ∷ t) e))
  | inr none_later ↦
      let here : (c == dot) ≡ true = first_dot (c == dot) _ h none_later in
      ([], rw none_later (rw here (ap (λ d. d ∷ s) (dot_eq c here))))
]
  where
    first_dot : (a b : Bool) → (a || b) ≡ true → b ≡ false → a ≡ true
    first_dot a b h k = ground arith

    dot_eq : (c : ℕ) → (c == dot) ≡ true → c ≡ dot
    dot_eq c e = ground arith

-- The metadata of an upload that may be stored
pub record IsConsistent (unicode : Unicode) (filename declared : Option Text)
    (m : NormalizedUploadMetadata) : Type 0 where
  pub given : Text
  pub named : filename ≡ some given
  pub normalized : m.filename ≡ filename_form unicode given
  pub safe : IsSafeName unicode m.filename
  pub rest : Text
  pub extended : HasExtension m.filename rest
  pub folded : m.extension ≡ dot ∷ unicode.casefold rest
  pub typed : m.media_type ≡ unicode.lower (strip (or_empty declared))
  pub matching : Matches m.upload_type m.extension m.media_type

module _ (unicode : Unicode) (blank : unicode.is_other space ≡ false) where
  upload_filename-IsSafeName :
      (filename : Option Text) (name : Text)
      → normalize_upload_filename unicode filename ≡ ok name
      → IsSafeName unicode name
  unfolding normalize_upload_filename
  upload_filename-IsSafeName none name h = cc
  upload_filename-IsSafeName (some filename) name h =
      let form = filename_form unicode filename in
      let (_, _, h) = >>=-eq-ok (raise_if (any is_control filename) _) _ h in
      let (_, path, h) = >>=-eq-ok (raise_if (is_path_name form) _) _ h in
      let (_, short, h) = >>=-eq-ok (raise_if (ltb 255 (length form)) _) _ h in
      normalize_original_filename-IsSafeName unicode filename name blank (
        accepted filename name (raise_if-eq-ok (is_path_name form) _ path)
          (raise_if-eq-ok (ltb 255 (length form)) _ short) h)
    where
      accepted :
          (filename name : Text)
          → is_path_name (filename_form unicode filename) ≡ false
          → ltb 255 (length (filename_form unicode filename)) ≡ false
          → ok (filename_form unicode filename) ≡ ok name
          → normalize_original_filename unicode filename ≡ ok name
      accepted filename name a b h = unfold normalize_original_filename in rw a (rw b h)

  or_unsupported-eq-ok : (r : Result Text) (t : Text) → or_unsupported r ≡ ok t → r ≡ ok t
  or_unsupported-eq-ok (ok s) t h = h
  or_unsupported-eq-ok (err e) t h = cc

  differs : (b : Bool) (e : Error) {u : Unit {0}} → raise_if (not b) e ≡ ok u → b ≡ true
  differs true e h = refl
  differs false e h = cc

  upload_filename-form :
      (filename : Option Text) (name : Text)
      → normalize_upload_filename unicode filename ≡ ok name
      → (given : Text) × (filename ≡ some given) × (name ≡ filename_form unicode given)
  unfolding normalize_upload_filename
  upload_filename-form none name h = cc
  upload_filename-form (some filename) name h =
      let form = filename_form unicode filename in
      let (_, _, h) = >>=-eq-ok (raise_if (any is_control filename) _) _ h in
      let (_, _, h) = >>=-eq-ok (raise_if (is_path_name form) _) _ h in
      let (_, _, h) = >>=-eq-ok (raise_if (ltb 255 (length form)) _) _ h in
      (filename, refl, sym (ok-injective h))

  extension_of-eq-ok :
      (name extension : Text)
      → extension_of unicode name ≡ ok extension
      → (any (λ c. c == dot) name ≡ true)
        × (extension ≡ dot ∷ unicode.casefold (after_last dot name))
  unfolding extension_of
  extension_of-eq-ok name extension h =
      let (_, dotted, h) = >>=-eq-ok (raise_if (not (any (λ c. c == dot) name)) _) _ h in
      let (_, _, h) =
        >>=-eq-ok (raise_if (is_empty (unicode.casefold (after_last dot name))) _) _ h in
      (differs (any (λ c. c == dot) name) _ dotted, sym (ok-injective h))

  media_type-eq-ok :
      (declared media_type : Text)
      → normalize_media_type unicode declared ≡ ok media_type
      → media_type ≡ unicode.lower (strip declared)
  unfolding normalize_media_type
  media_type-eq-ok declared media_type h =
      let (_, _, h) =
        >>=-eq-ok (raise_if (not (is_media_type (unicode.lower (strip declared)))) _) _ h in
      sym (ok-injective h)

  -- Metadata that is accepted has the normal form of the file name that was given, which is safe to
  -- show; its extension is a dot and the case-folded text behind the last dot of that name; its media
  -- type is the declared one, stripped and in lower case; and that extension and that media type are
  -- both those of the type of file that the upload is taken for.
  pub normalize_upload_metadata-IsConsistent :
      (filename declared : Option Text) (m : NormalizedUploadMetadata)
      → normalize_upload_metadata unicode filename declared ≡ ok m
      → IsConsistent unicode filename declared m
  unfolding normalize_upload_metadata policy_for_extension
  normalize_upload_metadata-IsConsistent filename declared m h =
      let (name, name_ok, h) = >>=-eq-ok (normalize_upload_filename unicode filename) _ h in
      let (extension, extension_ok, h) = >>=-eq-ok (extension_of unicode name) _ h in
      let (found, found_ok, h) = >>=-eq-ok (policy_from policies extension) _ h in
      let (media_type, type_ok, h) =
        >>=-eq-ok (or_unsupported (normalize_media_type unicode (or_empty declared))) _ h in
      let (_, agree, h) = >>=-eq-ok (raise_if (not (text_eq media_type found.media_type)) _) _ h in
      let (sound, listed) =
        policy_from-All Sound policies extension found policies-Sound found_ok in
      let (given, named, normalized) = upload_filename-form filename name name_ok in
      let (dotted, folded) = extension_of-eq-ok name extension extension_ok in
      let (stem, divided) = after_last-divided name dotted in
      ok-transport (IsConsistent unicode filename declared) h (record {
        given = given;
        named = named;
        normalized = normalized;
        safe = upload_filename-IsSafeName filename name name_ok;
        rest = after_last dot name;
        extended = record {
          stem = stem;
          divided = divided;
          last = after_last-no_separator dot name;
        };
        folded = folded;
        typed = media_type-eq-ok (or_empty declared) media_type (or_unsupported-eq-ok _ _ type_ok);
        matching =
            unfold Sound in
            sound extension media_type listed (
              text_eq_sound media_type found.media_type
                (differs (text_eq media_type found.media_type) _ agree));
      })
