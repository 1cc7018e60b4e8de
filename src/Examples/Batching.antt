-- ===== src/Examples/Batching.antt =====
-- A batch that two callers update from the same version.
use workflow_forge.Audit
use workflow_forge.Batches.Batch
use workflow_forge.Batches.Batch.{archived, batch_document}
use workflow_forge.Base.{
  ◌≡◌, is_ok, none, ◌∷◌, ok, ◌+◌, [], refl, some, true, false, err, archived_batch_mutation,
}
use workflow_forge.Batches.Service.Tenancy.{batch_isolation}
use workflow_forge.Batches.Service.{
  BatchDraw, update, archive, locked, record_if, create_batch, add_document, remove_document, get,
  or_rollback_if_missing,
}
use workflow_forge.Batches.Batch.{Batch, open_, is_archived}
use workflow_forge.Transaction.{run, lift, gets, change, commit, or_rollback, pure}
use workflow_forge.Text.{Text, squeeze, join, split, split_from, strip, rstrip, lstrip, is_space}
use workflow_forge.Batches.Batch.Laws.{WellFormed, apply, archiving, next_status, change_effect}
use workflow_forge.Batches.Store.{
  BatchStore, batch_from_record, append_batch_event, set_batch, membership_violation,
  membership_from_record, insert_membership,
}
use workflow_forge.Authorization.Context.{TenantContext}
use workflow_forge.Identity.Roles.{owner, permissions_for_role, contains, ordinal}
use workflow_forge.Time.{utc, normalize}
use workflow_forge.Authorization.Policy.{require, allows}
use workflow_forge.Batches.Repository.{get_batch, update_batch, add_membership}
use workflow_forge.Audit.{append}
use workflow_forge.Batches.Service.Versions.{Versioned}
use workflow_forge.Batches.Service.NoLostUpdate.{
  no_lost_update, perform, perform_requests, update_call, archive_call, add_document_request,
}
use workflow_forge.Batches.Service.Tenancy.{SameElsewhere}
use workflow_forge.Rows.{first, replace_where}

abbrev pub tenant : TenantContext
tenant = record {
  user_id = 11;
  organization_id = 7;
  membership_id = 3;
  role = owner;
  permissions = permissions_for_role owner;
}

abbrev draw : BatchDraw
draw = record { now = 150; uuid = λ k. k + 30; audited = true }

-- `ana`
abbrev name : Text
name = 97 ∷ 110 ∷ 97 ∷ []

abbrev pub batch : Batch
batch = record {
  id = 5;
  organization_id = 7;
  name = name;
  description = none;
  status = open_;
  external_reference = none;
  created_at = utc 100;
  created_by_user_id = 11;
  updated_at = utc 100;
  updated_by_user_id = 11;
  archived_at = none;
  archived_by_user_id = none;
  lock_version = 1;
}

abbrev renamed : Batch
renamed = record batch { name = 98 ∷ []; updated_at = utc 150; lock_version = 2 }

abbrev batch_store : BatchStore
batch_store = record { batches = batch ∷ []; memberships = []; documents = []; events = [] }

batch_built : Batch.post_init batch ≡ ok batch
unfolding Batch.post_init Batch.bounded_text squeeze join split split_from strip rstrip lstrip
    is_space Batch.bounded_text_optional normalize Batch.archive_metadata
batch_built = refl

change_effect_example :
    ((y : Batch)
      → apply (archiving 11 (utc 150)) batch ≡ ok y
      → WellFormed y
        × (is_archived batch.status ≡ false)
        × (y.id ≡ batch.id)
        × (y.organization_id ≡ batch.organization_id)
        × (y.status ≡ next_status (archiving 11 (utc 150)) batch.status)
        × (y.lock_version ≡ batch.lock_version + 1))
    × (is_archived batch.status ≡ true
        → apply (archiving 11 (utc 150)) batch ≡ err archived_batch_mutation)
change_effect_example = change_effect (archiving 11 (utc 150)) batch

update_returns :
    (run (update draw tenant 5 1 (some (98 ∷ [])) none none) batch_store).0 ≡ ok renamed
unfolding run update lift require allows contains permissions_for_role locked get_batch gets first
    batch_from_record Batch.post_init Batch.bounded_text squeeze join split split_from strip append
    Audit.create Batch.archive_metadata Batch.bounded_text_optional Batch.ensure_mutable
    Batch.update update_batch record_if append_batch_event set_batch replace_where ordinal is_space
    lstrip rstrip normalize change commit or_rollback pure
update_returns = refl

-- Another user of the organization
abbrev pub colleague : TenantContext
colleague = record tenant { user_id = 12; membership_id = 4 }

-- The colleague adds a document, and archives the batch at the version that the update has found.
no_lost_update_example :
    Versioned tenant 5 1 batch_store
      (run (perform (update_call (some (98 ∷ [])) none none) draw tenant 5 1) batch_store).1
      renamed
    × (is_ok
          (run (perform archive_call draw colleague 5 1) (
            perform_requests
              ((draw, colleague, add_document_request 5 9) ∷ [])
              (run
                (perform (update_call (some (98 ∷ [])) none none) draw tenant 5 1)
                batch_store).1)).0
        ≡ false)
no_lost_update_example =
    no_lost_update (update_call (some (98 ∷ [])) none none) archive_call draw draw tenant colleague
      5 1 ((draw, colleague, add_document_request 5 9) ∷ []) batch_store renamed update_returns refl

batch_isolation_example :
    SameElsewhere 7 batch_store (run (create_batch draw tenant name none none) batch_store).1
    × SameElsewhere 7 batch_store (run (update draw tenant 5 1 (some name) none none) batch_store).1
    × SameElsewhere 7 batch_store (run (archive draw tenant 5 1) batch_store).1
    × SameElsewhere 7 batch_store (run (add_document draw tenant 5 9) batch_store).1
    × SameElsewhere 7 batch_store (run (remove_document draw tenant 5 9) batch_store).1
batch_isolation_example = batch_isolation draw tenant 5 1 9 name (some name) none none batch_store

-- A document is added to an archived batch.
abbrev archived_store : BatchStore
archived_store = record {
  batches =
      record batch {
        status = archived;
        archived_at = some (utc 120);
        archived_by_user_id = some 11;
        lock_version = 2;
      }
      ∷ [];
  memberships = [];
  documents = (7, 9) ∷ [];
  events = [];
}

archived_batch_grows : is_ok (run (add_document draw tenant 5 9) archived_store).0 ≡ true
unfolding run add_document get add_membership membership_violation membership_from_record
    insert_membership or_rollback_if_missing batch_document lift require allows contains
    permissions_for_role get_batch gets first batch_from_record Batch.post_init Batch.bounded_text
    squeeze join split split_from strip append Audit.create Batch.archive_metadata
    Batch.bounded_text_optional record_if append_batch_event ordinal is_space lstrip rstrip
    normalize change commit pure
archived_batch_grows = refl
