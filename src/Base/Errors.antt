-- ===== src/Base/Errors.antt =====
-- Raised exceptions as values. A constructor of `Error` is an exception class of the source; where
-- one class is raised for several reasons, the reason is its argument in place of the message.
use mathlib.Core.Path.{◌≡◌, refl, subst, ap, ◌∙◌}
use mathlib.Core.Logic.{◌⊎◌, inl, inr}
use mathlib.Core.Bool.{Bool, true, false}
use mathlib.Core.Option.{Option, none, some}
use mathlib.Core.List.{List, [], ◌∷◌, ◌++◌}

pub data Reason : Type 0 where
  nil_uuid malformed not_aware updated_early revoked_early used_early mutation_early : Reason
  expiry_not_later missing_timestamp surplus_timestamp is_removed wrong_status : Reason
  not_positive not_current same_digest required too_long unsafe_text archived : Reason
  missing_archive surplus_archive wrong_document wrong_tenant not_text_type : Reason

-- The codes of `UploadValidationError`
pub data UploadProblem : Type 0 where
  invalid_filename unsupported_file_type media_type_mismatch file_too_large : UploadProblem
  stream_read_failed empty_file invalid_file_signature malformed_file : UploadProblem

pub data Error : Type 0 where
  invalid_identifier invalid_timestamp invalid_email_address invalid_organization_slug :
      Reason → Error
  invalid_display_name invalid_organization_name invalid_session_state : Reason → Error
  invalid_membership_transition membership_already_removed last_active_owner_violation : Error
  invalid_refresh_token_state value_error batch_error case_error document_error : Reason → Error
  archived_batch_mutation archived_document_mutation invalid_document_transition : Error
  permission_denied tenant_boundary_violation tenant_access_denied : Error
  tenant_membership_inactive membership_administration_denied : Error
  session_not_found session_ownership refresh_token_replay invalid_refresh_token : Error
  expired_refresh_token refresh_rotation_conflict invalid_access_token : Error
  expired_access_token duplicate_refresh_token_digest missing_identity_reference : Error
  batch_not_found document_not_found case_not_found case_task_not_found : Error
  concurrency_conflict integrity_error data_error : Error
  audit_persistence : Error
  invalid_audit_event : Reason → Error
  upload_validation : UploadProblem → Error
  invalid_idempotency_key : Error

-- What a call comes to: the exception that it raises, or what it returns.
pub data Result {ℓ} (T : Type ℓ) : Type ℓ where
  err : Error → Result T
  ok : T → Result T

-- The next statement runs if the last one has returned.
module _ {ℓ κ} {T : Type ℓ} {U : Type κ} where
  infixl 5 ◌>>=◌
  abbrev pub ◌>>=◌ : Result T → (T → Result U) → Result U
  err e >>= next = err e
  ok t >>= next = next t

  pub >>=-eq-ok :
      (call : Result T) (next : T → Result U) {u : U}
      → (call >>= next) ≡ ok u
      → (t : T) × (call ≡ ok t) × (next t ≡ ok u)
  >>=-eq-ok (err e) next h = cc
  >>=-eq-ok (ok t) next h = (t, refl, h)

infixl 5 ◌>>◌
abbrev pub ◌>>◌ {κ} : {U : Type κ} → Result (Unit {0}) → Result U → Result U
statement >> rest = statement >>= λ _. rest

-- `if test: raise e`
abbrev pub raise_if : Bool → Error → Result (Unit {0})
raise_if true e = err e
raise_if false e = ok tt

abbrev pub or_raise {ℓ} : {A : Type ℓ} → Option A → Error → Result A
or_raise none e = err e
or_raise (some a) e = ok a

-- The call returns.
abbrev pub is_ok {ℓ} : {A : Type ℓ} → Result A → Bool
is_ok (ok _) = true
is_ok (err _) = false

pub ok-injective {ℓ} : {A : Type ℓ} {a b : A} → ok a ≡ ok b → a ≡ b
ok-injective h = cc

pub ok-transport {ℓ κ} : {A : Type ℓ} (P : A → Type κ) {a b : A} → ok a ≡ ok b → P a → P b
ok-transport P h = subst P (ok-injective h)

pub Result-cases {ℓ} :
    {A : Type ℓ} (r : Result A) → ((a : A) × (r ≡ ok a)) ⊎ ((e : Error) × (r ≡ err e))
Result-cases (ok a) = inl (a, refl)
Result-cases (err e) = inr (e, refl)

pub or_raise-eq-ok {ℓ} :
    {A : Type ℓ} (o : Option A) (e : Error) {a : A} → or_raise o e ≡ ok a → o ≡ some a
or_raise-eq-ok none e h = cc
or_raise-eq-ok (some a) e h = cc

-- `read(row) if row is not None else None`
abbrev pub read_optional {ℓ} : {A : Type ℓ} → (A → Result A) → Option A → Result (Option A)
read_optional read none = ok none
read_optional read (some a) = read a >>= λ b. ok (some b)

-- `[read(row) for row in rows]`
abbrev pub read_all {ℓ} : {A : Type ℓ} → (A → Result A) → List A → Result (List A)
read_all read [] = ok []
read_all read (x ∷ xs) = read x >>= λ y. read_all read xs >>= λ ys. ok (y ∷ ys)

pub raise_if-eq-ok : (b : Bool) (e : Error) {u : Unit {0}} → raise_if b e ≡ ok u → b ≡ false
raise_if-eq-ok true e h = cc
raise_if-eq-ok false e h = refl

-- Rows that are read one part after the other are read together.
pub read_all-append {ℓ} :
    {A : Type ℓ} (read : A → Result A) (xs ys : List A) {xs' ys' : List A}
    → read_all read xs ≡ ok xs'
    → read_all read ys ≡ ok ys'
    → read_all read (xs ++ ys) ≡ ok (xs' ++ ys')
read_all-append read [] ys {xs'} {ys'} h k = k ∙ ap (λ zs. ok (zs ++ ys')) (ok-injective h)
read_all-append read (x ∷ xs) ys {xs'} {ys'} h k =
    let (y, y_ok, h) = >>=-eq-ok (read x) _ h in
    let (zs, zs_ok, h) = >>=-eq-ok (read_all read xs) _ h in
    rw y_ok (rw (read_all-append read xs ys zs_ok k) (ap (λ us. ok (us ++ ys')) (ok-injective h)))
