-- ===== src/Batches/Service.antt =====
-- `BatchService` of packages/application/src/workflowforge_application/batches.py, with the
-- transaction manager that the API gives it.
pub mod Locking
pub mod Versions
pub mod Effects
pub mod Tenancy
pub mod NoLostUpdate
use workflow_forge.Audit
use workflow_forge.Batches.Batch
use workflow_forge.Authorization.Context.{TenantContext}
use workflow_forge.Base.{
  document_not_found, ℕ, Result, Option, Bool, err, false, or_raise, batch_not_found, some,
  raise_if, none, not, ◌==◌, true, concurrency_conflict,
}
use workflow_forge.Transaction.{Action, Tx, ◌>>◌, lift, ◌>>=◌, pure, or_rollback, change, commit}
use workflow_forge.Audit.{
  AuditEventType, success, batch_document_removed, batch_updated, batch_created,
  batch_document_added, AuditEvent,
}
use workflow_forge.Batches.Store.{BatchStore, append_batch_event}
use workflow_forge.Text.{Text}
use workflow_forge.Time.{DateTime, utc}
use workflow_forge.Batches.Batch.{Batch, BatchDocument, validate_batch_uuid, batch_document}
use workflow_forge.Authorization.Policy.{require}
use workflow_forge.Identity.Roles.{batch_write, batch_manage_documents, batch_archive, batch_read}
use workflow_forge.Batches.Repository.{
  get_batch, remove_membership, update_batch, add_membership, add_batch,
}

-- What a call draws: the time in UTC, the identifiers in the order of their calls, and whether there
-- is an audit recorder.
pub record BatchDraw : Type 0 where
  pub now : ℕ
  pub uuid : ℕ → ℕ
  pub audited : Bool

-- `if self._audit is None: return`
unfoldable pub record_if : Bool → Result AuditEvent → Action BatchStore (Unit {0})
record_if false event = pure tt
record_if true event = do e ← lift event; change (append_batch_event e)

-- `_record`
abbrev pub record_batch_event :
    BatchDraw → ℕ → AuditEventType → DateTime → TenantContext → Action BatchStore (Unit {0})
record_batch_event draw k event_type now tenant = record_if draw.audited (
    Audit.create (draw.uuid k) event_type success now (some tenant.user_id)
      (some tenant.organization_id) none)

unfoldable pub create_batch :
    BatchDraw
    → TenantContext
    → (name : Text) → (description external_reference : Option Text) → Action BatchStore Batch
create_batch draw tenant name description external_reference = do
  lift (require tenant batch_write)
  lift (validate_batch_uuid (draw.uuid 0))
  batch ← lift (
      Batch.create (draw.uuid 0) tenant.organization_id name description external_reference
        tenant.user_id (utc draw.now))
  or_rollback (do
    saved ← add_batch batch
    record_batch_event draw 1 batch_created (utc draw.now) tenant
    commit
    pure saved)

unfoldable pub get : TenantContext → (batch_id : ℕ) → Action BatchStore Batch
get tenant batch_id = do
  lift (require tenant batch_read)
  found ← get_batch tenant.organization_id batch_id
  lift (or_raise found batch_not_found)

-- The row that `update` and `archive` lock, if its version is the expected one.
unfoldable pub locked : TenantContext → (batch_id lock_version : ℕ) → Action BatchStore Batch
locked tenant batch_id lock_version = do
  found ← get_batch tenant.organization_id batch_id
  batch ← lift (or_raise found batch_not_found)
  lift (raise_if (not (batch.lock_version == lock_version)) concurrency_conflict)
  pure batch

unfoldable pub update :
    BatchDraw
    → TenantContext
    → (batch_id lock_version : ℕ) → (name description external_reference : Option Text)
    → Action BatchStore Batch
update draw tenant batch_id lock_version name description external_reference = do
  lift (require tenant batch_write)
  batch ← locked tenant batch_id lock_version
  updated ←
      lift (Batch.update batch name description external_reference tenant.user_id (utc draw.now))
  or_rollback (do
    saved ← update_batch updated
    record_batch_event draw 0 batch_updated saved.updated_at tenant
    commit
    pure saved)

unfoldable pub archive :
    BatchDraw → TenantContext → (batch_id lock_version : ℕ) → Action BatchStore Batch
archive draw tenant batch_id lock_version = do
  lift (require tenant batch_archive)
  batch ← locked tenant batch_id lock_version
  archived ← lift (Batch.archive batch tenant.user_id (utc draw.now))
  saved ← update_batch archived
  record_batch_event draw 0 AuditEventType.batch_archived saved.updated_at tenant
  commit
  pure saved

-- `except DocumentNotFoundError: await rollback(); raise`
abbrev pub missing_document : {A : Type 0} → Result A → Tx BatchStore → Tx BatchStore
missing_document (err document_not_found) tx = record tx { working = tx.committed }
missing_document _ tx = tx

unfoldable pub or_rollback_if_missing : {A : Type 0} → Action BatchStore A → Action BatchStore A
or_rollback_if_missing m tx = let (r, tx') = m tx in (r, missing_document r tx')

unfoldable pub add_document :
    BatchDraw → TenantContext → (batch_id document_id : ℕ) → Action BatchStore BatchDocument
add_document draw tenant batch_id document_id = do
  lift (require tenant batch_manage_documents)
  get tenant batch_id >> pure tt
  lift (validate_batch_uuid (draw.uuid 0))
  membership ← lift (
      batch_document (record {
        id = draw.uuid 0;
        organization_id = tenant.organization_id;
        batch_id = batch_id;
        document_id = document_id;
        added_at = utc draw.now;
        added_by_user_id = tenant.user_id;
      }))
  or_rollback_if_missing (do
    saved ← add_membership membership
    record_batch_event draw 1 batch_document_added saved.added_at tenant
    commit
    pure saved)

unfoldable pub remove_document :
    BatchDraw → TenantContext → (batch_id document_id : ℕ) → Action BatchStore Bool
remove_document draw tenant batch_id document_id = do
  lift (require tenant batch_manage_documents)
  get tenant batch_id >> pure tt
  removed ← remove_membership tenant.organization_id batch_id document_id
  record_batch_event draw 0 batch_document_removed (utc draw.now) tenant
  commit
  pure removed
