-- ===== src/Batches/Service/Locking.antt =====
-- Optimistic locking: a batch is changed only by a call that names its current version.
use workflow_forge.Base.{
  ℕ, List, Error, raise_if, ◌≡◌, not, ok, some, ◌∙◌, >>=-eq-ok, ◌==◌, read_optional, arith,
  or_raise, batch_not_found, concurrency_conflict, ap, or_raise-eq-ok, sym, true,
}
use workflow_forge.Batches.Store.{find_batch, batch_from_record, BatchStore, is_batch}
use workflow_forge.Authorization.Context.{TenantContext}
use workflow_forge.Batches.Service.{locked}
use workflow_forge.Batches.Batch.{Batch, validate_batch_uuid}
use workflow_forge.Transaction.{Tx, gets}
use workflow_forge.Batches.Repository.{get_batch}
use workflow_forge.Transaction.Returns.{lift-then, pure-returns}
use workflow_forge.Batches.Batch.Laws.{batch-post_init-WellFormed}
use workflow_forge.Sessions.Lifecycle.Refused.{read_optional-eq-ok}
use workflow_forge.Rows.Laws.{first-satisfies}

pub find_batch-keys :
    (o i : ℕ) (xs : List Batch) (x : Batch)
    → find_batch o i xs ≡ some x
    → (x.organization_id ≡ o) × (x.id ≡ i)
find_batch-keys o i xs x h = keys (first-satisfies (is_batch o i) xs x h)
  where
    keys : is_batch o i x ≡ true → (x.organization_id ≡ o) × (x.id ≡ i)
    keys e = ground arith

pub batch_from_record-eq-ok :
    (row x : Batch)
    → batch_from_record row ≡ ok x
    → (x.id ≡ row.id)
      × (x.organization_id ≡ row.organization_id)
      × (x.status ≡ row.status)
      × (x.lock_version ≡ row.lock_version)
unfolding batch_from_record
batch_from_record-eq-ok row x h =
    let (_, _, h) = >>=-eq-ok (validate_batch_uuid row.id) _ h in
    let (_, i, o, s, v) = batch-post_init-WellFormed row x h in (i, o, s, v)

-- What `locked` has found.
pub record Locked (tenant : TenantContext) (i v : ℕ) (tx tx' : Tx BatchStore) (x : Batch)
    : Type 0 where
  pub row : Batch
  pub found : find_batch tenant.organization_id i tx.working.batches ≡ some row
  pub read : batch_from_record row ≡ ok x
  pub version : row.lock_version ≡ v
  pub kept : tx' ≡ tx

version_eq : (a b : ℕ) (e : Error) {u : Unit {0}} → raise_if (not (a == b)) e ≡ ok u → a ≡ b
version_eq a b e h = ground arith

pub locked-returns :
    (tenant : TenantContext) (i v : ℕ) (tx tx' : Tx BatchStore) (x : Batch)
    → locked tenant i v tx ≡ (ok x, tx')
    → Locked tenant i v tx tx' x
unfolding locked get_batch gets
locked-returns tenant i v tx tx' x h =
    let row = find_batch tenant.organization_id i tx.working.batches in
    let (found, read, h) = lift-then (read_optional batch_from_record row) _ h in
    let (y, y_eq, h) = lift-then (or_raise found batch_not_found) _ h in
    let (_, same, h) = lift-then (raise_if (not (y.lock_version == v)) concurrency_conflict) _ h in
    let (x_eq, kept) = pure-returns y h in
    let (r, r_eq, r_ok) =
      read_optional-eq-ok batch_from_record row (read ∙ ap ok (or_raise-eq-ok found _ y_eq)) in
    let (_, _, _, version) = batch_from_record-eq-ok r y r_ok in
    record {
      row = r;
      found = r_eq;
      read = r_ok ∙ ap ok (sym x_eq);
      version = sym version ∙ version_eq y.lock_version v concurrency_conflict same;
      kept = kept;
    }

pub locked-organization :
    (tenant : TenantContext) (i v : ℕ) (tx tx' : Tx BatchStore) (x : Batch)
    → locked tenant i v tx ≡ (ok x, tx')
    → x.organization_id ≡ tenant.organization_id
locked-organization tenant i v tx tx' x h =
    let l = locked-returns tenant i v tx tx' x h in
    let (_, o, _, _) = batch_from_record-eq-ok l.row x l.read in
    o ∙ (find_batch-keys tenant.organization_id i tx.working.batches l.row l.found).0
