-- ===== src/Batches/Listing.antt =====
-- The listing of batches and of their documents (`BatchListFilter`, `list_batches` and
-- `list_documents` of packages/application/src/workflowforge_application/batches.py, with the
-- queries of packages/infrastructure/src/workflowforge_infrastructure/batches.py).
use workflow_forge.Batches.Batch.{Batch, BatchStatus, BatchDocument, is_archived}
use workflow_forge.Batches.Store.{BatchStore, batch_from_record, membership_from_record}
use workflow_forge.Rows.Paging.{order_by, page}
use workflow_forge.Base.{
  List, ℕ, Option, Bool, some, read_all, true, none, ◌||◌, false, ◌==◌, not, ◌&&◌, ltb, length,
}
use workflow_forge.Authorization.Context.{TenantContext}
use workflow_forge.Text.{Text}
use workflow_forge.Transaction.{Action, ◌>>◌, lift, pure, ◌>>=◌, gets}
use workflow_forge.Rows.{every}
use workflow_forge.Time.{before, instant}
use workflow_forge.Batches.Service.{get}
use workflow_forge.Authorization.Policy.{require}
use workflow_forge.Identity.Roles.{batch_read}

pub record BatchListFilter : Type 0 where
  pub limit : ℕ
  pub offset : ℕ
  pub status : Option BatchStatus
  pub archived : Option Bool
  pub name : Option Text

pub record BatchListPage : Type 0 where
  pub items : List Batch
  pub total : ℕ
  pub limit : ℕ
  pub offset : ℕ

-- `BatchRecord.status == query.status.value`
abbrev pub same_status : BatchStatus → BatchStatus → Bool
same_status BatchStatus.open_ BatchStatus.open_ = true
same_status BatchStatus.closed BatchStatus.closed = true
same_status BatchStatus.archived BatchStatus.archived = true
same_status _ _ = false

-- The condition on the status: a status that is asked for goes before the flag.
abbrev pub status_selected : Option BatchStatus → Option Bool → BatchStatus → Bool
status_selected (some status) archived row = same_status row status
status_selected none (some true) row = is_archived row
status_selected none (some false) row = not (is_archived row)
status_selected none none row = true

-- `created_at DESC, id DESC`, and `added_at DESC, id DESC`
abbrev pub newer : Batch → Batch → Bool
newer a b =
    before b.created_at a.created_at
    || (instant a.created_at == instant b.created_at && ltb b.id a.id)

abbrev pub added_later : BatchDocument → BatchDocument → Bool
added_later a b =
    before b.added_at a.added_at || (instant a.added_at == instant b.added_at && ltb b.id a.id)

-- `list_documents`: `get` has found the batch before the query
unfoldable pub list_documents :
    TenantContext → (batch_id : ℕ) → Action BatchStore (List BatchDocument)
list_documents tenant batch_id = do
  get tenant batch_id >> pure tt
  rows ← gets (λ s.
      every (λ x. x.organization_id == tenant.organization_id && x.batch_id == batch_id)
        s.memberships)
  lift (read_all membership_from_record (order_by added_later rows))

-- `name ILIKE %name%` is the database's: whether the first text has the second one in it.
module _ (ilike : Text → Text → Bool) where
  abbrev pub name_selected : Option Text → Text → Bool
  name_selected none row = true
  name_selected (some name) row = ilike row name

  unfoldable pub matching_batches :
      (organization_id : ℕ) → BatchListFilter → BatchStore → List Batch
  matching_batches o query s =
      every
        (λ (row : Batch).
          row.organization_id == o
          && status_selected query.status query.archived row.status
          && name_selected query.name row.name)
        s.batches

  abbrev pub batch_page : BatchListFilter → (total : ℕ) → List Batch → BatchListPage
  batch_page query total items = record {
    items = items;
    total = total;
    limit = query.limit;
    offset = query.offset;
  }

  -- `list_batches` of the service and of the repository
  unfoldable pub list_batches : TenantContext → BatchListFilter → Action BatchStore BatchListPage
  list_batches tenant query = do
    lift (require tenant batch_read)
    matching ← gets (matching_batches tenant.organization_id query)
    items ←
        lift (read_all batch_from_record (page query.limit query.offset (order_by newer matching)))
    pure (batch_page query (length matching) items)
