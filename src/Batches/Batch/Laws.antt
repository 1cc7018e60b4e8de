-- ===== src/Batches/Batch/Laws.antt =====
-- What the constructor of `Batch` accepts, and what its methods change.
use workflow_forge.Batches.Batch.{
  archived, update, bounded_text, BatchStatus, archive_metadata, post_init, bounded_text_optional,
  Batch, archive, validate_batch_uuid, ensure_mutable, is_archived, timestamp,
}
use workflow_forge.Base.{
  Option, ℕ, Result, Error, ◌≢◌, ◌≡◌, some, ok, raise_if, none, is_empty, is_some, >>=-eq-ok, ◌==◌,
  ◌≤◌, arith, false, ◌+◌, length, ok-transport, true, refl, err, archived_batch_mutation,
  raise_if-eq-ok,
}
use workflow_forge.Text.{Text, squeeze}
use workflow_forge.Time.{normalize, IsUtc, DateTime, IsUtcOption, normalize-eq-ok}
use workflow_forge.Text.Split.{squeeze_idem}

-- A text that the constructor leaves as it is.
abbrev pub IsBounded : ℕ → Text → Type 0
IsBounded n t = (squeeze t ≡ t) × (is_empty t ≡ false) × (length t ≤ n)

abbrev pub IsBoundedOption : ℕ → Option Text → Type 0
IsBoundedOption n none = Unit
IsBoundedOption n (some t) = IsBounded n t

-- A batch that the constructor has validated.
pub record WellFormed (x : Batch) : Type 0 where
  pub organization_set : x.organization_id ≢ 0
  pub creator_set : x.created_by_user_id ≢ 0
  pub updater_set : x.updated_by_user_id ≢ 0
  pub name_bounded : IsBounded 255 x.name
  pub description_bounded : IsBoundedOption 2000 x.description
  pub reference_bounded : IsBoundedOption 255 x.external_reference
  pub created_utc : IsUtc x.created_at
  pub updated_utc : IsUtc x.updated_at
  pub versioned : 1 ≤ x.lock_version
  pub archived_dated : is_some x.archived_at ≡ is_archived x.status
  pub archived_named : is_some x.archived_by_user_id ≡ is_archived x.status
  pub archived_utc : IsUtcOption x.archived_at

bounded_text-eq-ok : (t : Text) (n : ℕ) (t' : Text) → bounded_text t n ≡ ok t' → IsBounded n t'
unfolding bounded_text
bounded_text-eq-ok t n t' h = ground (arith, squeeze_idem t)

bounded_text_optional-eq-ok :
    (t : Option Text) (n : ℕ) (t' : Option Text)
    → bounded_text_optional t n ≡ ok t'
    → IsBoundedOption n t'
unfolding bounded_text_optional
bounded_text_optional-eq-ok none n t' h = ground arith
bounded_text_optional-eq-ok (some t) n t' h = ground (arith, squeeze_idem t)

archive_metadata-eq-ok :
    (s : BatchStatus) (at : Option DateTime) (user : Option ℕ) (at' : Option DateTime)
    → archive_metadata s at user ≡ ok at'
    → (is_some at' ≡ is_archived s) × (is_some user ≡ is_archived s) × IsUtcOption at'
unfolding archive_metadata normalize
archive_metadata-eq-ok s at user at' h = ground arith

not_nil : (n : ℕ) {u : Unit {0}} → validate_batch_uuid n ≡ ok u → n ≢ 0
not_nil n h = ground arith

positive : (n : ℕ) (e : Error) {u : Unit {0}} → raise_if (n == 0) e ≡ ok u → 1 ≤ n
positive n e h = ground arith

-- Whatever the constructor returns is validated: its name is normal, not empty and of at most 255
-- characters, its optional texts are normal where they are given, its version is positive, and it
-- has a time and a user of archiving exactly if it is archived. It differs from what was given in
-- texts and times only.
pub batch-post_init-WellFormed :
    (x y : Batch)
    → post_init x ≡ ok y
    → WellFormed y
      × (y.id ≡ x.id)
      × (y.organization_id ≡ x.organization_id)
      × (y.status ≡ x.status)
      × (y.lock_version ≡ x.lock_version)
unfolding post_init
batch-post_init-WellFormed x y h =
    let (_, organization, h) = >>=-eq-ok (validate_batch_uuid x.organization_id) _ h in
    let (_, creator, h) = >>=-eq-ok (validate_batch_uuid x.created_by_user_id) _ h in
    let (_, updater, h) = >>=-eq-ok (validate_batch_uuid x.updated_by_user_id) _ h in
    let (name, name_ok, h) = >>=-eq-ok (bounded_text x.name 255) _ h in
    let (description, description_ok, h) =
      >>=-eq-ok (bounded_text_optional x.description 2000) _ h in
    let (reference, reference_ok, h) =
      >>=-eq-ok (bounded_text_optional x.external_reference 255) _ h in
    let (created, created_ok, h) = >>=-eq-ok (timestamp x.created_at) _ h in
    let (updated, updated_ok, h) = >>=-eq-ok (timestamp x.updated_at) _ h in
    let (_, version, h) = >>=-eq-ok (raise_if (x.lock_version == 0) _) _ h in
    let (at, at_ok, h) =
      >>=-eq-ok (archive_metadata x.status x.archived_at x.archived_by_user_id) _ h in
    let (dated, named, at_utc) = archive_metadata-eq-ok x.status _ _ at at_ok in
    ok-transport
      (λ y.
        WellFormed y
        × (y.id ≡ x.id)
        × (y.organization_id ≡ x.organization_id)
        × (y.status ≡ x.status)
        × (y.lock_version ≡ x.lock_version))
      h
      (
        record {
          organization_set = not_nil x.organization_id organization;
          creator_set = not_nil x.created_by_user_id creator;
          updater_set = not_nil x.updated_by_user_id updater;
          name_bounded = bounded_text-eq-ok x.name 255 name name_ok;
          description_bounded =
              bounded_text_optional-eq-ok x.description 2000 description description_ok;
          reference_bounded =
              bounded_text_optional-eq-ok x.external_reference 255 reference reference_ok;
          created_utc = (normalize-eq-ok _ x.created_at created_ok).0;
          updated_utc = (normalize-eq-ok _ x.updated_at updated_ok).0;
          versioned = positive x.lock_version _ version;
          archived_dated = dated;
          archived_named = named;
          archived_utc = at_utc;
        },
        refl,
        refl,
        refl,
        refl,
      )

-- A call of a method of a batch.
pub data Change : Type 0 where
  updating : (name description external_reference : Option Text) → (actor : ℕ) → DateTime → Change
  archiving : (actor : ℕ) → DateTime → Change

abbrev pub apply : Change → Batch → Result Batch
apply (updating name description external_reference actor now) x =
    update x name description external_reference actor now
apply (archiving actor now) x = archive x actor now

-- The status after a change of a batch that is not archived.
abbrev pub next_status : Change → BatchStatus → BatchStatus
next_status (updating _ _ _ _ _) s = s
next_status (archiving _ _) s = archived

-- A change that returns was made to a batch that is not archived: the new batch is validated, keeps
-- identifier and organization, has the next version, and is archived if it was archived by the
-- change and of the old status otherwise. A change of an archived batch raises.
pub change_effect :
    (c : Change) (x : Batch)
    → ((y : Batch)
        → apply c x ≡ ok y
        → WellFormed y
          × (is_archived x.status ≡ false)
          × (y.id ≡ x.id)
          × (y.organization_id ≡ x.organization_id)
          × (y.status ≡ next_status c x.status)
          × (y.lock_version ≡ x.lock_version + 1))
      × (is_archived x.status ≡ true → apply c x ≡ err archived_batch_mutation)
unfolding update archive ensure_mutable
change_effect (updating n d r actor now) x = (
  λ y h.
      let (_, mutable, h) = >>=-eq-ok (raise_if (is_archived x.status) _) _ h in
      let (_, _, h) = >>=-eq-ok (validate_batch_uuid actor) _ h in
      let (at, _, h) = >>=-eq-ok (timestamp now) _ h in
      let (formed, i, o, s, v) = batch-post_init-WellFormed _ y h in
      (formed, raise_if-eq-ok (is_archived x.status) archived_batch_mutation mutable, i, o, s, v),
  λ a. rw a,
)
change_effect (archiving actor now) x = (
  λ y h.
      let (_, mutable, h) = >>=-eq-ok (raise_if (is_archived x.status) _) _ h in
      let (at, _, h) = >>=-eq-ok (timestamp now) _ h in
      let (formed, i, o, s, v) = batch-post_init-WellFormed _ y h in
      (formed, raise_if-eq-ok (is_archived x.status) archived_batch_mutation mutable, i, o, s, v),
  λ a. rw a,
)
