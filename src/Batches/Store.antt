-- ===== src/Batches/Store.antt =====
-- The tables of batches and their documents
-- (packages/infrastructure/src/workflowforge_infrastructure/batches.py). The foreign keys to users
-- and organizations are left out: a tenant context names rows that exist.
use workflow_forge.Batches.Batch
use workflow_forge.Batches.Batch.{BatchDocument, Batch, validate_batch_uuid, batch_document}
use workflow_forge.Base.{
  ℕ, List, Option, ◌∷◌, Result, Bool, ◌>>=◌, ◌>>◌, ok, ◌==◌, any, raise_if, ◌&&◌, ◌||◌,
  integrity_error, ◌+◌, not, is_some, document_error, nil_uuid,
}
use workflow_forge.Audit.{AuditEvent, append}
use workflow_forge.Rows.{replace_where, drop_where, first}

pub record BatchStore : Type 0 where
  pub batches : List Batch
  pub memberships : List BatchDocument
  pub documents : List (ℕ × ℕ)  -- the pairs of organization and identifier of the documents
  pub events : List AuditEvent

-- The condition of `_batch_record`
abbrev pub is_batch : (organization_id batch_id : ℕ) → Batch → Bool
is_batch o i row = row.organization_id == o && row.id == i

-- `_batch_record`; `get_for_update` selects the same row and locks it
abbrev pub find_batch : (organization_id batch_id : ℕ) → List Batch → Option Batch
find_batch o i = first (is_batch o i)

-- `_batch_from_record`
unfoldable pub batch_from_record : Batch → Result Batch
batch_from_record row = do validate_batch_uuid row.id; Batch.post_init row

unfoldable pub insert_batch : Batch → BatchStore → Result BatchStore
insert_batch x s = do
  raise_if (any (λ y. y.id == x.id) s.batches) integrity_error
  ok (record s { batches = x ∷ s.batches })

-- The columns that the `UPDATE` sets.
abbrev pub written : Batch → Batch → Batch
written x row = record row {
  name = x.name;
  description = x.description;
  status = x.status;
  external_reference = x.external_reference;
  updated_at = x.updated_at;
  updated_by_user_id = x.updated_by_user_id;
  archived_at = x.archived_at;
  archived_by_user_id = x.archived_by_user_id;
  lock_version = x.lock_version;
}

-- The condition of the `UPDATE`, with `lock_version == batch.lock_version - 1`
abbrev pub is_target : Batch → Batch → Bool
is_target x row =
    row.organization_id == x.organization_id
    && row.id == x.id
    && row.lock_version + 1 == x.lock_version

unfoldable pub set_batch : Batch → BatchStore → Result BatchStore
set_batch x s = ok (record s { batches = replace_where (is_target x) (written x) s.batches })

-- The condition of `_membership_record` and of the `DELETE`
abbrev pub is_membership : (organization_id batch_id document_id : ℕ) → BatchDocument → Bool
is_membership o b d row = row.organization_id == o && row.batch_id == b && row.document_id == d

-- `_membership_record`
abbrev pub find_membership :
    (organization_id batch_id document_id : ℕ) → List BatchDocument → Option BatchDocument
find_membership o b d = first (is_membership o b d)

-- A constraint of `batch_documents` is violated.
unfoldable pub membership_violation : BatchStore → BatchDocument → Bool
membership_violation s x =
    any (λ y. y.id == x.id) s.memberships
    || any (λ y. y.batch_id == x.batch_id && y.document_id == x.document_id) s.memberships
    || not (is_some (find_batch x.organization_id x.batch_id s.batches))
    || not (any (λ d. d.0 == x.organization_id && d.1 == x.document_id) s.documents)

-- `_membership_from_record`
unfoldable pub membership_from_record : BatchDocument → Result BatchDocument
membership_from_record row = do
  validate_batch_uuid row.id
  validate_batch_uuid row.batch_id
  raise_if (row.document_id == 0) (document_error nil_uuid)
  batch_document row

unfoldable pub insert_membership : BatchDocument → BatchStore → Result BatchStore
insert_membership x s = ok (record s { memberships = x ∷ s.memberships })

unfoldable pub delete_membership :
    (organization_id batch_id document_id : ℕ) → BatchStore → Result BatchStore
delete_membership o b d s =
    ok (record s { memberships = drop_where (is_membership o b d) s.memberships })

unfoldable pub append_batch_event : AuditEvent → BatchStore → Result BatchStore
append_batch_event event s = do events ← append event s.events; ok (record s { events = events })
