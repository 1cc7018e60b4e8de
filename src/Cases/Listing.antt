-- ===== src/Cases/Listing.antt =====
-- The listing of cases: `CaseListFilter` and `list_cases` of packages/application/src/
-- workflowforge_application/cases.py, with the query of the repository
-- (packages/infrastructure/src/workflowforge_infrastructure/cases.py).
use workflow_forge.Cases.Case.{Case, CaseStatus, CasePriority, is_archived}
use workflow_forge.Cases.Store.{CaseStore, case_from_record}
use workflow_forge.Base.{
  Bool, List, ℕ, Option, ◌==◌, true, some, Result, ◌≡◌, none, ◌||◌, ◌&&◌, length, not, min, ◌-◌,
  false, ltb, read_all, All, ok, ◌>>=◌, >>=-eq-ok, ==_iff, arith, ◌>>◌, ok-transport, ◌∙◌, ap, refl,
  ◌∷◌, [],
}
use workflow_forge.Text.{Text}
use workflow_forge.Time.{before, instant}
use workflow_forge.Authorization.Context.{TenantContext}
use workflow_forge.Rows.{every}
use workflow_forge.Authorization.Policy.{require}
use workflow_forge.Identity.Roles.{case_read}
use workflow_forge.Rows.Paging.{
  page, order_by, All-page, All-order_by, every-All, length-page, length-order_by,
}
use workflow_forge.Cases.Service.Locking.{case_from_record-eq-ok, case_from_record-priority}

pub record CaseListFilter : Type 0 where
  pub limit : ℕ
  pub offset : ℕ
  pub status : Option CaseStatus
  pub priority : Option CasePriority
  pub archived : Option Bool
  pub title : Option Text

pub record CaseListPage : Type 0 where
  pub items : List Case
  pub total : ℕ
  pub limit : ℕ
  pub offset : ℕ

abbrev pub status_number : CaseStatus → ℕ
status_number CaseStatus.open_ = 0
status_number CaseStatus.closed = 1
status_number CaseStatus.archived = 2

abbrev pub priority_number : CasePriority → ℕ
priority_number CasePriority.low = 0
priority_number CasePriority.normal = 1
priority_number CasePriority.high = 2
priority_number CasePriority.urgent = 3

-- The condition on the status: a status that is asked for goes before the flag.
abbrev pub status_selected : Option CaseStatus → Option Bool → CaseStatus → Bool
status_selected (some status) archived row = status_number row == status_number status
status_selected none (some true) row = is_archived row
status_selected none (some false) row = not (is_archived row)
status_selected none none row = true

abbrev pub priority_selected : Option CasePriority → CasePriority → Bool
priority_selected none row = true
priority_selected (some priority) row = priority_number row == priority_number priority

-- `created_at DESC, id DESC`
abbrev pub newer : Case → Case → Bool
newer a b =
    before b.created_at a.created_at
    || (instant a.created_at == instant b.created_at && ltb b.id a.id)

and_parts : (a b c d : Bool) → (a && b && c && d) ≡ true → (a ≡ true) × (b ≡ true) × (c ≡ true)
and_parts a b c d h = ground arith

-- `title ILIKE %title%` is the database's: whether the first text has the second one in it.
module _ (ilike : Text → Text → Bool) where
  abbrev pub title_selected : Option Text → Text → Bool
  title_selected none row = true
  title_selected (some title) row = ilike row title

  unfoldable pub is_selected : (organization_id : ℕ) → CaseListFilter → Case → Bool
  is_selected o query row =
      row.organization_id == o
      && status_selected query.status query.archived row.status
      && priority_selected query.priority row.priority
      && title_selected query.title row.title

  -- `list_cases` of the repository
  unfoldable pub selected_cases :
      (organization_id : ℕ) → CaseListFilter → CaseStore → Result CaseListPage
  selected_cases o query s = do
    let matching = every (is_selected o query) s.cases
    items ← read_all case_from_record (page query.limit query.offset (order_by newer matching))
    ok (record {
      items = items;
      total = length matching;
      limit = query.limit;
      offset = query.offset;
    })

  -- `list_cases` of the service
  unfoldable pub list_cases : TenantContext → CaseListFilter → CaseStore → Result CaseListPage
  list_cases tenant query s = do
    require tenant case_read
    selected_cases tenant.organization_id query s

  -- What a listing that returns shows
  pub record Listed (o : ℕ) (query : CaseListFilter) (s : CaseStore) (result : CaseListPage)
      : Type 0 where
    pub total : result.total ≡ length (every (is_selected o query) s.cases)
    pub size : length result.items ≡ min query.limit (result.total - query.offset)
    pub shown :
        All
          (λ (x : Case).
            (x.organization_id ≡ o)
            × (status_selected query.status query.archived x.status ≡ true)
            × (priority_selected query.priority x.priority ≡ true))
          result.items

  selected-keys :
      (o : ℕ) (query : CaseListFilter) (x : Case)
      → is_selected o query x ≡ true
      → (x.organization_id ≡ o)
        × (status_selected query.status query.archived x.status ≡ true)
        × (priority_selected query.priority x.priority ≡ true)
  unfolding is_selected
  selected-keys o query x h =
      let (a, b, c) =
        and_parts (x.organization_id == o) (status_selected query.status query.archived x.status)
          (priority_selected query.priority x.priority) (title_selected query.title x.title) h in
      ((==_iff x.organization_id o).0 a, b, c)

  read-selected :
      (o : ℕ) (query : CaseListFilter) (rows items : List Case)
      → All (λ x. is_selected o query x ≡ true) rows
      → read_all case_from_record rows ≡ ok items
      → (length items ≡ length rows)
        × All
            (λ (x : Case).
              (x.organization_id ≡ o)
              × (status_selected query.status query.archived x.status ≡ true)
              × (priority_selected query.priority x.priority ≡ true))
            items
  read-selected o query [] items p h =
      ok-transport
        (λ (items : List Case).
          (length items ≡ 0)
          × All
              (λ (x : Case).
                (x.organization_id ≡ o)
                × (status_selected query.status query.archived x.status ≡ true)
                × (priority_selected query.priority x.priority ≡ true))
              items)
        h (refl, tt)
  read-selected o query (row ∷ rows) items p h =
      let (x, x_ok, h) = >>=-eq-ok (case_from_record row) _ h in
      let (xs, xs_ok, h) = >>=-eq-ok (read_all case_from_record rows) _ h in
      let (n, all) = read-selected o query rows xs p.1 xs_ok in
      let (a, b, c) = selected-keys o query row p.0 in
      let (_, organization, status, _) = case_from_record-eq-ok row x x_ok in
      let priority = case_from_record-priority row x x_ok in
      ok-transport
        (λ (items : List Case).
          (length items ≡ length (row ∷ rows))
          × All
              (λ (x : Case).
                (x.organization_id ≡ o)
                × (status_selected query.status query.archived x.status ≡ true)
                × (priority_selected query.priority x.priority ≡ true))
              items)
        h
        (
          omega (arith, n),
          (
            (
              organization ∙ a,
              ap (status_selected query.status query.archived) status ∙ b,
              ap (priority_selected query.priority) priority ∙ c,
            ),
            all,
          ),
        )

  -- A listing that returns counts all of the tenant's cases that the filter selects, and shows one
  -- page of them: as many as the limit allows and as are left behind the offset, all of them cases
  -- of the tenant's organization with the status and the priority that the filter asks for.
  pub case_listing :
      (tenant : TenantContext) (query : CaseListFilter) (s : CaseStore) (result : CaseListPage)
      → list_cases tenant query s ≡ ok result
      → Listed tenant.organization_id query s result
  unfolding list_cases selected_cases
  case_listing tenant query s result h =
      let o = tenant.organization_id in
      let matching = every (is_selected o query) s.cases in
      let rows = page query.limit query.offset (order_by newer matching) in
      let (_, _, h) = >>=-eq-ok (require tenant case_read) _ h in
      let (items, items_ok, h) = >>=-eq-ok (read_all case_from_record rows) _ h in
      let selected =
        All-page (λ x. is_selected o query x ≡ true) query.limit query.offset
          (order_by newer matching)
          (All-order_by (λ x. is_selected o query x ≡ true) newer matching
            (every-All (is_selected o query) s.cases)) in
      let (n, shown) = read-selected o query rows items selected items_ok in
      ok-transport (Listed o query s) h (record {
        total = refl;
        size =
            n
            ∙ length-page query.limit query.offset (order_by newer matching)
            ∙ ap (λ k. min query.limit (k - query.offset)) (length-order_by newer matching);
        shown = shown;
      })
