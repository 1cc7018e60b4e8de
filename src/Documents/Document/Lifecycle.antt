-- ===== src/Documents/Document/Lifecycle.antt =====
-- The changes of a document: which of them its status allows, and what they lead to.
use workflow_forge.Documents.Document.Laws.{WellFormed, Made, document-post_init-Made}
use workflow_forge.Documents.Document.{
  Document, DocumentStatus, stored, failed, archived, is_archived, is_settled, status_of_version,
  mutated, transition_to, mark_stored, mark_failed, set_current_version, archive, ensure_mutable,
}
use workflow_forge.Base.{
  ℕ, Bool, Error, not, Result, ◌≡◌, ◌&&◌, false, true, raise_if, ok, ◌==◌, arith, err, ◌≤◌,
  >>=-eq-ok, ap, raise_if-eq-ok, ◌+◌, archived_document_mutation, ◌∙◌, refl,
  invalid_document_transition,
}
use workflow_forge.Time.{DateTime, instant, before, raise_if-before, normalize-eq-ok}
use workflow_forge.Documents.Naming.{Unicode}
use workflow_forge.Documents.Version.{DocumentVersion, document_timestamp}
use workflow_forge.Text.{space}
use workflow_forge.Documents.Keys.{validate_document_uuid}

-- A call of a method of a document.
pub data Change : Type 0 where
  storing failing archiving : (actor : ℕ) → DateTime → Change
  renewing : DocumentVersion → (actor : ℕ) → DateTime → Change

abbrev pub apply : Unicode → Change → Document → Result Document
apply unicode (storing actor now) x = mark_stored unicode x actor now
apply unicode (failing actor now) x = mark_failed unicode x actor now
apply unicode (archiving actor now) x = archive unicode x actor now
apply unicode (renewing version actor now) x = set_current_version unicode x version actor now

-- The time of the change
abbrev pub time_of : Change → DateTime
time_of (storing _ now) = now
time_of (failing _ now) = now
time_of (archiving _ now) = now
time_of (renewing _ _ now) = now

-- The status allows the change, and a new version belongs to the document.
abbrev pub is_allowed : Change → Document → Bool
is_allowed (storing _ _) x = not (is_settled x.status)
is_allowed (failing _ _) x = not (is_settled x.status)
is_allowed (archiving _ _) x = not (is_archived x.status)
is_allowed (renewing version _ _) x =
    not (is_archived x.status)
    && version.document_id == x.id
    && version.organization_id == x.organization_id

abbrev pub next_status : Change → DocumentStatus
next_status (storing _ _) = stored
next_status (failing _ _) = failed
next_status (archiving _ _) = archived
next_status (renewing version _ _) = status_of_version version.storage_state

abbrev pub next_current : Change → Document → ℕ
next_current (renewing version _ _) x = version.id
next_current _ x = x.current_version_id

-- What a change that returns has done.
pub record Changed (unicode : Unicode) (c : Change) (x y : Document) : Type 0 where
  pub formed : WellFormed unicode y
  pub allowed : is_allowed c x ≡ true
  pub in_time : instant x.created_at ≤ instant (time_of c)
  pub same_id : y.id ≡ x.id
  pub same_organization : y.organization_id ≡ x.organization_id
  pub status : y.status ≡ next_status c
  pub current : y.current_version_id ≡ next_current c x
  pub version : y.lock_version ≡ x.lock_version + 1

open_status : (b : Bool) (e : Error) {u : Unit {0}} → raise_if b e ≡ ok u → not b ≡ true
open_status b e h = ap not (raise_if-eq-ok b e h)

same : (a b : ℕ) (e : Error) {u : Unit {0}} → raise_if (not (a == b)) e ≡ ok u → (a == b) ≡ true
same a b e h = ground arith

conjunction : (a b c : Bool) → a ≡ true → b ≡ true → c ≡ true → (a && b && c) ≡ true
conjunction a b c h k l = ground arith

on_time :
    (now at : DateTime) (x : Document) (e : Error) {u : Unit {0}}
    → document_timestamp now ≡ ok at
    → raise_if (before at x.created_at) e ≡ ok u
    → instant x.created_at ≤ instant now
on_time now at x e h k =
    let late = raise_if-before x.created_at at e k in
    let shown = (normalize-eq-ok _ now h).1 in omega (arith, late, shown)

module _ (unicode : Unicode) (blank : unicode.is_other space ≡ false) where
  Made-Changed :
      (c : Change) (x x' y : Document)
      → is_allowed c x ≡ true
      → instant x.created_at ≤ instant (time_of c)
      → x'.id ≡ x.id
      → x'.organization_id ≡ x.organization_id
      → x'.status ≡ next_status c
      → x'.current_version_id ≡ next_current c x
      → x'.lock_version ≡ x.lock_version + 1
      → Made unicode x' y
      → Changed unicode c x y
  Made-Changed c x x' y allowed in_time id organization status current version m = record {
    formed = m.formed;
    allowed = allowed;
    in_time = in_time;
    same_id = m.same_id ∙ id;
    same_organization = m.same_organization ∙ organization;
    status = m.same_status ∙ status;
    current = m.same_current ∙ current;
    version = m.same_version ∙ version;
  }

  mutated-Changed :
      (c : Change) (x changed y : Document) (actor : ℕ)
      → mutated unicode x changed actor (time_of c) ≡ ok y
      → is_allowed c x ≡ true
      → changed.id ≡ x.id
      → changed.organization_id ≡ x.organization_id
      → changed.status ≡ next_status c
      → changed.current_version_id ≡ next_current c x
      → Changed unicode c x y
  unfolding mutated
  mutated-Changed c x changed y actor h allowed id organization status current =
      let (_, _, h) = >>=-eq-ok (validate_document_uuid actor) _ h in
      let (at, at_ok, h) = >>=-eq-ok (document_timestamp (time_of c)) _ h in
      let (_, late, h) = >>=-eq-ok (raise_if (before at x.created_at) _) _ h in
      Made-Changed c x _ y allowed (on_time (time_of c) at x _ at_ok late) id organization status
        current refl (document-post_init-Made unicode blank _ y h)

  pub document-apply-Changed :
      (c : Change) (x y : Document) → apply unicode c x ≡ ok y → Changed unicode c x y
  unfolding mark_stored mark_failed transition_to archive set_current_version ensure_mutable
  document-apply-Changed (storing actor now) x y h =
      let (_, _, h) = >>=-eq-ok (raise_if (is_archived x.status) _) _ h in
      let (_, free, h) = >>=-eq-ok (raise_if (is_settled x.status) _) _ h in
      mutated-Changed (storing actor now) x _ y actor h (open_status (is_settled x.status) _ free)
        refl refl refl refl
  document-apply-Changed (failing actor now) x y h =
      let (_, _, h) = >>=-eq-ok (raise_if (is_archived x.status) _) _ h in
      let (_, free, h) = >>=-eq-ok (raise_if (is_settled x.status) _) _ h in
      mutated-Changed (failing actor now) x _ y actor h (open_status (is_settled x.status) _ free)
        refl refl refl refl
  document-apply-Changed (archiving actor now) x y h =
      let (_, free, h) = >>=-eq-ok (raise_if (is_archived x.status) _) _ h in
      let (at, at_ok, h) = >>=-eq-ok (document_timestamp now) _ h in
      let (_, _, h) = >>=-eq-ok (validate_document_uuid actor) _ h in
      let (_, late, h) = >>=-eq-ok (raise_if (before at x.created_at) _) _ h in
      Made-Changed (archiving actor now) x _ y (open_status (is_archived x.status) _ free)
        (on_time now at x _ at_ok late) refl refl refl refl refl
        (document-post_init-Made unicode blank _ y h)
  document-apply-Changed (renewing version actor now) x y h =
      let (_, free, h) = >>=-eq-ok (raise_if (is_archived x.status) _) _ h in
      let (_, document, h) = >>=-eq-ok (raise_if (not (version.document_id == x.id)) _) _ h in
      let (_, organization, h) =
        >>=-eq-ok (raise_if (not (version.organization_id == x.organization_id)) _) _ h in
      mutated-Changed (renewing version actor now) x _ y actor h
        (conjunction (not (is_archived x.status)) (version.document_id == x.id)
          (version.organization_id == x.organization_id) (open_status (is_archived x.status) _ free)
          (same version.document_id x.id _ document)
          (same version.organization_id x.organization_id _ organization))
        refl refl refl refl

  -- A change of a document that returns was allowed by its status, belongs to its document and
  -- organization where it brings a new version, and is not earlier than the document; the new
  -- document is validated, keeps identifier and organization, has the next lock version, and the
  -- status and the current version that the change leads to. Every change of an archived document
  -- raises the exception for archived documents, and a stored document refuses to be marked again.
  pub document_lifecycle :
      (c : Change) (x : Document)
      → ((y : Document) → apply unicode c x ≡ ok y → Changed unicode c x y)
        × (x.status ≡ archived → apply unicode c x ≡ err archived_document_mutation)
        × ((actor : ℕ) (now : DateTime)
            → x.status ≡ stored
            → (mark_stored unicode x actor now ≡ err invalid_document_transition)
              × (mark_failed unicode x actor now ≡ err invalid_document_transition))
  unfolding mark_stored mark_failed transition_to archive set_current_version ensure_mutable
  document_lifecycle c x = (document-apply-Changed c x, refused c, λ actor now s. (rw s, rw s))
    where
      refused :
          (c : Change) → x.status ≡ archived → apply unicode c x ≡ err archived_document_mutation
      refused (storing actor now) s = rw s
      refused (failing actor now) s = rw s
      refused (archiving actor now) s = rw s
      refused (renewing version actor now) s = rw s
