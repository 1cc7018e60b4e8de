-- ===== src/Documents/Document/Laws.antt =====
-- The life cycle of documents.
use workflow_forge.Documents.Naming.{
  Unicode, normalize_original_filename, normalize_source_reference,
}
use workflow_forge.Documents.Keys.{validate_document_uuid}
use workflow_forge.Documents.Filename.{IsSafeName, normalize_original_filename-IsSafeName}
use workflow_forge.Documents.Version.{document_timestamp}
use workflow_forge.Documents.Document.{
  Document, DocumentStatus, is_archived, archive_metadata, post_init,
}
use workflow_forge.Base.{
  ◌≢◌, ◌≡◌, Option, ℕ, false, ok, Error, >>=-eq-ok, raise_if, arith, is_some, ◌≤◌, ◌==◌,
  ok-transport, refl,
}
use workflow_forge.Text.{space}
use workflow_forge.Time.{
  DateTime, IsUtc, instant, IsUtcOption, normalize_optional, before, normalize-eq-ok,
  normalize_optional-eq-ok, raise_if-before,
}

-- A document that the constructor has validated.
pub record WellFormed (unicode : Unicode) (x : Document) : Type 0 where
  pub organization_set : x.organization_id ≢ 0
  pub creator_set : x.created_by_user_id ≢ 0
  pub updater_set : x.updated_by_user_id ≢ 0
  pub named : IsSafeName unicode x.display_filename
  pub created_utc : IsUtc x.created_at
  pub updated_utc : IsUtc x.updated_at
  pub archived_utc : IsUtcOption x.archived_at
  pub updated_late : instant x.created_at ≤ instant x.updated_at
  pub versioned : 1 ≤ x.lock_version
  pub archived_dated : is_some x.archived_at ≡ is_archived x.status
  pub archived_named : is_some x.archived_by_user_id ≡ is_archived x.status

document_not_nil : (n : ℕ) {u : Unit {0}} → validate_document_uuid n ≡ ok u → n ≢ 0
document_not_nil n h = ground arith

document_positive : (n : ℕ) (e : Error) {u : Unit {0}} → raise_if (n == 0) e ≡ ok u → 1 ≤ n
document_positive n e h = ground arith

document_archive_metadata :
    (s : DocumentStatus) (at : Option DateTime) (user : Option ℕ) {u : Unit {0}}
    → archive_metadata s at user ≡ ok u
    → (is_some at ≡ is_archived s) × (is_some user ≡ is_archived s)
unfolding archive_metadata
document_archive_metadata s at user h = ground arith

-- The document that the constructor makes of its arguments.
pub record Made (unicode : Unicode) (x y : Document) : Type 0 where
  pub formed : WellFormed unicode y
  pub same_id : y.id ≡ x.id
  pub same_organization : y.organization_id ≡ x.organization_id
  pub same_status : y.status ≡ x.status
  pub same_current : y.current_version_id ≡ x.current_version_id
  pub same_version : y.lock_version ≡ x.lock_version
  pub same_created : instant y.created_at ≡ instant x.created_at

module _ (unicode : Unicode) (blank : unicode.is_other space ≡ false) where
  pub document-post_init-Made : (x y : Document) → post_init unicode x ≡ ok y → Made unicode x y
  unfolding post_init
  document-post_init-Made x y h =
      let (_, organization, h) = >>=-eq-ok (validate_document_uuid x.organization_id) _ h in
      let (_, creator, h) = >>=-eq-ok (validate_document_uuid x.created_by_user_id) _ h in
      let (_, updater, h) = >>=-eq-ok (validate_document_uuid x.updated_by_user_id) _ h in
      let (name, name_ok, h) =
        >>=-eq-ok (normalize_original_filename unicode x.display_filename) _ h in
      let (reference, _, h) =
        >>=-eq-ok (normalize_source_reference unicode x.source_reference) _ h in
      let (created, created_ok, h) = >>=-eq-ok (document_timestamp x.created_at) _ h in
      let (updated, updated_ok, h) = >>=-eq-ok (document_timestamp x.updated_at) _ h in
      let (at, at_ok, h) = >>=-eq-ok (normalize_optional _ x.archived_at) _ h in
      let (_, late, h) = >>=-eq-ok (raise_if (before updated created) _) _ h in
      let (_, version, h) = >>=-eq-ok (raise_if (x.lock_version == 0) _) _ h in
      let (_, marked, h) = >>=-eq-ok (archive_metadata x.status at x.archived_by_user_id) _ h in
      let (dated, by) = document_archive_metadata x.status at x.archived_by_user_id marked in
      ok-transport (Made unicode x) h (record {
        formed = record {
          organization_set = document_not_nil x.organization_id organization;
          creator_set = document_not_nil x.created_by_user_id creator;
          updater_set = document_not_nil x.updated_by_user_id updater;
          named =
              normalize_original_filename-IsSafeName unicode x.display_filename name blank name_ok;
          created_utc = (normalize-eq-ok _ x.created_at created_ok).0;
          updated_utc = (normalize-eq-ok _ x.updated_at updated_ok).0;
          archived_utc = normalize_optional-eq-ok _ x.archived_at at_ok;
          updated_late = raise_if-before created updated _ late;
          versioned = document_positive x.lock_version _ version;
          archived_dated = dated;
          archived_named = by;
        };
        same_id = refl;
        same_organization = refl;
        same_status = refl;
        same_current = refl;
        same_version = refl;
        same_created = (normalize-eq-ok _ x.created_at created_ok).1;
      })
