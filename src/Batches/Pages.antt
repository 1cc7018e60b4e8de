-- ===== src/Batches/Pages.antt =====
-- The pages of a listing of batches follow one another without a gap.
use workflow_forge.Batches.Batch.{Batch}
use workflow_forge.Batches.Store.{BatchStore, batch_from_record}
use workflow_forge.Batches.Listing.{
  BatchListFilter, BatchListPage, newer, matching_batches, list_batches, batch_page,
}
use workflow_forge.Rows.Paging.{order_by, page, page-append}
use workflow_forge.Base.{
  ℕ, Bool, List, ◌≡◌, ok, read_all, length, ◌∙◌, ap, sym, ◌+◌, ◌++◌, subst, read_all-append,
}
use workflow_forge.Text.{Text}
use workflow_forge.Authorization.Context.{TenantContext}
use workflow_forge.Transaction.{gets, Tx, run, lift, pure}
use workflow_forge.Authorization.Policy.{require}
use workflow_forge.Identity.Roles.{batch_read}
use workflow_forge.Transaction.Returns.{lift-then, pure-returns, returned}

-- The filter for the page of `limit` batches that begins at `offset`
abbrev pub at_page : BatchListFilter → (limit offset : ℕ) → BatchListFilter
at_page query limit offset = record query { limit = limit; offset = offset }

module _ (ilike : Text → Text → Bool) (tenant : TenantContext) (query : BatchListFilter) where
  -- The rows of a listing, in order
  abbrev rows : BatchStore → List Batch
  rows s = order_by newer (matching_batches ilike tenant.organization_id query s)

  -- What a listing that returns has found
  pub record Listed (s : BatchStore) (l o : ℕ) (result : BatchListPage) : Type 0 where
    pub allowed : (u : Unit {0}) × (require tenant batch_read ≡ ok u)
    pub read : read_all batch_from_record (page l o (rows s)) ≡ ok result.items
    pub total : result.total ≡ length (matching_batches ilike tenant.organization_id query s)
    pub limit : result.limit ≡ l
    pub offset : result.offset ≡ o

  list_batches-returns :
      (l o : ℕ) (tx tx' : Tx BatchStore) (result : BatchListPage)
      → list_batches ilike tenant (at_page query l o) tx ≡ (ok result, tx')
      → Listed tx.working l o result
  unfolding list_batches gets matching_batches
  list_batches-returns l o tx tx' result h =
      let (u, may, h) = lift-then (require tenant batch_read) _ h in
      let (items, items_ok, h) =
        lift-then (read_all batch_from_record (page l o (rows tx.working))) _ h in
      let (same, _) = pure-returns _ h in
      record {
        allowed = (u, may);
        read = items_ok ∙ ap (λ (p : BatchListPage). ok p.items) (sym same);
        total = ap (λ (p : BatchListPage). p.total) same;
        limit = ap (λ (p : BatchListPage). p.limit) same;
        offset = ap (λ (p : BatchListPage). p.offset) same;
      }

  -- Two listings of the same store whose pages follow one another are one listing: the page that is
  -- as long as both holds the batches of the first one and then those of the second one, with the
  -- same total.
  pub batch_pages :
      (l l' o : ℕ) (s : BatchStore) (p p' : BatchListPage)
      → (run (list_batches ilike tenant (at_page query l o)) s).0 ≡ ok p
      → (run (list_batches ilike tenant (at_page query l' (o + l))) s).0 ≡ ok p'
      → (run (list_batches ilike tenant (at_page query (l + l') o)) s).0
        ≡ ok (batch_page ilike (at_page query (l + l') o) p.total (p.items ++ p'.items))
  unfolding run list_batches lift gets pure matching_batches
  batch_pages l l' o s p p' h h' =
      let tx : Tx BatchStore = record { committed = s; working = s } in
      let first = list_batches-returns l o tx _ p (returned _ h) in
      let second = list_batches-returns l' (o + l) tx _ p' (returned _ h') in
      let read =
        subst (λ xs. read_all batch_from_record xs ≡ ok (p.items ++ p'.items))
          (page-append l l' o (rows s))
          (read_all-append batch_from_record _ _ first.read second.read) in
      rw (first.allowed.1, read)
        (ap (λ n. ok (batch_page ilike (at_page query (l + l') o) n (p.items ++ p'.items)))
          (sym first.total))
