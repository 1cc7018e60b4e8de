-- ===== src/Batches/Repository.antt =====
-- `SqlAlchemyBatchRepository` of
-- packages/infrastructure/src/workflowforge_infrastructure/batches.py as statements of a use case.
use workflow_forge.Base.{
  ℕ, Option, Bool, is_some, if◌then◌else◌, read_optional, or_raise, document_not_found,
}
use workflow_forge.Batches.Batch.{BatchDocument, Batch}
use workflow_forge.Transaction.{Action, ◌>>=◌, ◌>>◌, gets, change, pure, lift, rollback}
use workflow_forge.Batches.Store.{
  BatchStore, find_batch, membership_violation, insert_batch, set_batch, find_membership,
  batch_from_record, delete_membership, insert_membership, membership_from_record,
}

unfoldable pub get_batch : (organization_id batch_id : ℕ) → Action BatchStore (Option Batch)
get_batch o i = do
  row ← gets (λ s. find_batch o i s.batches)
  lift (read_optional batch_from_record row)

unfoldable pub add_batch : Batch → Action BatchStore Batch
add_batch x = do change (insert_batch x); lift (batch_from_record x)

-- `update` of the repository: how many rows are hit is not looked at
unfoldable pub update_batch : Batch → Action BatchStore Batch
update_batch x = do change (set_batch x); pure x

-- `add_document`: a membership that is there already is returned as it is
unfoldable pub add_membership : BatchDocument → Action BatchStore BatchDocument
add_membership x = do
  violated ← gets (λ s. membership_violation s x)
  (if violated
      then (do
        rollback
        existing ←
            gets (λ s. find_membership x.organization_id x.batch_id x.document_id s.memberships)
        row ← lift (or_raise existing document_not_found)
        lift (membership_from_record row))
      else (do change (insert_membership x); lift (membership_from_record x)))

-- `remove_document`, which returns whether a row was deleted
unfoldable pub remove_membership :
    (organization_id batch_id document_id : ℕ) → Action BatchStore Bool
remove_membership o b d = do
  found ← gets (λ s. is_some (find_membership o b d s.memberships))
  change (delete_membership o b d)
  pure found
