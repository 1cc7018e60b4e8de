-- ===== src/Examples/BatchPages.antt =====
-- Two pages of one batch each.
use workflow_forge.Batches.Batch
use workflow_forge.Batches.Pages.{batch_pages, at_page}
use workflow_forge.Examples.Batching.{tenant, batch}
use workflow_forge.Batches.Listing.{
  BatchListFilter, list_batches, BatchListPage, batch_page, matching_batches,
}
use workflow_forge.Batches.Batch.{Batch}
use workflow_forge.Batches.Store.{BatchStore, batch_from_record}
use workflow_forge.Transaction.{run, lift, gets, pure}
use workflow_forge.Base.{ℕ, ◌∷◌, none, true, some, [], false, ◌≡◌, ok, refl}
use workflow_forge.Time.{utc, normalize}
use workflow_forge.Authorization.Policy.{require, allows}
use workflow_forge.Identity.Roles.{contains, permissions_for_role, ordinal}
use workflow_forge.Rows.Paging.{page, order_by, insert_by}
use workflow_forge.Rows.{every}
use workflow_forge.Text.{squeeze, join, split, is_space, lstrip, rstrip, split_from, strip}

abbrev older : Batch
older = record batch { id = 6; created_at = utc 90; updated_at = utc 95 }

abbrev two_batches : BatchStore
two_batches = record { batches = older ∷ batch ∷ []; memberships = []; documents = []; events = [] }

abbrev query : BatchListFilter
query = record { limit = 1; offset = 0; status = none; archived = some false; name = none }

abbrev page_of : Batch → (offset : ℕ) → BatchListPage
page_of b offset = record { items = b ∷ []; total = 2; limit = 1; offset = offset }

first_page :
    (run (list_batches (λ s t. true) tenant (at_page query 1 0)) two_batches).0
    ≡ ok (page_of batch 0)
unfolding run list_batches lift require allows contains permissions_for_role gets page order_by
    matching_batches every insert_by batch_from_record Batch.post_init Batch.bounded_text squeeze
    join split Batch.archive_metadata Batch.bounded_text_optional ordinal is_space lstrip rstrip
    split_from strip normalize pure
first_page = refl

second_page :
    (run (list_batches (λ s t. true) tenant (at_page query 1 1)) two_batches).0
    ≡ ok (page_of older 1)
unfolding run list_batches lift require allows contains permissions_for_role gets page order_by
    matching_batches every insert_by batch_from_record Batch.post_init Batch.bounded_text squeeze
    join split Batch.archive_metadata Batch.bounded_text_optional ordinal is_space lstrip rstrip
    split_from strip normalize pure
second_page = refl

batch_pages_example :
    (run (list_batches (λ s t. true) tenant (at_page query 2 0)) two_batches).0
    ≡ ok (batch_page (λ s t. true) (at_page query 2 0) 2 (batch ∷ older ∷ []))
batch_pages_example =
    batch_pages (λ s t. true) tenant query 1 1 0 two_batches (page_of batch 0) (page_of older 1)
      first_page second_page
