-- ===== src/Cases/Service/Versions.antt =====
-- Optimistic locking of cases: what a change of a case finds and stores.
use workflow_forge.Cases.Case.Laws.{
  Change, apply, apply-Changed, is_allowed, next_status, WellFormed,
}
use workflow_forge.Cases.Case.{Case, CasePriority}
use workflow_forge.Cases.Store.{CaseStore, is_case, is_target, written, set_case}
use workflow_forge.Cases.Service.{
  update, close, reopen, archive, store_case, locked_case, record_case_event, CaseDraw,
}
use workflow_forge.Base.{
  ℕ, Option, ◌≡◌, some, true, ok, ◌+◌, arith, ◌∙◌, sym, ap, ok-injective, refl,
}
use workflow_forge.Transaction.{run, Tx, Action, ◌>>=◌, lift, change, pure, commit}
use workflow_forge.Cases.Repository.{update_case}
use workflow_forge.Authorization.Context.{TenantContext}
use workflow_forge.Text.{Text}
use workflow_forge.Time.{DateTime, utc}
use workflow_forge.Rows.{first, replace_where}
use workflow_forge.Audit.{AuditEventType, case_updated, case_closed, case_reopened}
use workflow_forge.Transaction.Returns.{
  lift-then, returned, change-returns, pure-returns, commit-returns,
}
use workflow_forge.Authorization.Policy.{require}
use workflow_forge.Transaction.Rules.{>>=-returns}
use workflow_forge.Cases.Service.Locking.{
  locked_case-returns, case_from_record-eq-ok, record_case_if-returns, is_case_keys,
}
use workflow_forge.Identity.Roles.{case_write, case_archive}
use workflow_forge.Rows.Laws.{first-satisfies, first-replace_where}

-- A call of the service that changes a case.
pub data CaseCall : Type 0 where
  update_call : (title summary : Option Text) → Option CasePriority → Option Text → CaseCall
  close_call reopen_call archive_call : CaseCall

abbrev pub perform : CaseCall → CaseDraw → TenantContext → (i v : ℕ) → Action CaseStore Case
perform (update_call t s p r) draw tenant i v = update draw tenant i v t s p r
perform close_call draw tenant i v = close draw tenant i v
perform reopen_call draw tenant i v = reopen draw tenant i v
perform archive_call draw tenant i v = archive draw tenant i v

-- The method of the case that the call applies.
abbrev pub change_of : CaseCall → (actor : ℕ) → DateTime → Change
change_of (update_call t s p r) = Change.updating t s p r
change_of close_call = Change.closing
change_of reopen_call = Change.reopening
change_of archive_call = Change.archiving

store_case-returns :
    (draw : CaseDraw) (tenant : TenantContext) (event : AuditEventType) (x y : Case)
    (tx tx' : Tx CaseStore)
    → store_case draw tenant event x tx ≡ (ok y, tx')
    → (y ≡ x) × (tx'.committed.cases ≡ replace_where (is_target x) (written x) tx.working.cases)
unfolding store_case update_case set_case
store_case-returns draw tenant event x y tx tx' h =
    let (saved, a, stored, h) = >>=-returns (update_case x) _ tx h in
    let (_, c, wrote, kept) = >>=-returns (change (set_case x)) (λ _. pure x) tx stored in
    let (s, s_ok, c_eq) = change-returns (set_case x) wrote in
    let (saved_eq, a_eq) = pure-returns x kept in
    let (_, d, recorded, h) =
      >>=-returns (record_case_event draw 0 event saved.updated_at tenant) _ a h in
    let (same, _) = record_case_if-returns draw.audited _ a d recorded in
    let (_, f, committed, h) = >>=-returns commit _ d h in
    let (y_eq, end) = pure-returns saved h in
    (
      y_eq ∙ saved_eq,
      ap (λ t. t.committed.cases) (end ∙ commit-returns d committed)
          ∙ same
          ∙ ap (λ t. t.working.cases) (a_eq ∙ c_eq)
          ∙ ap (λ s. s.cases) (sym (ok-injective s_ok)),
    )

-- What a change of a case that returns has found and stored.
pub record CaseVersioned (c : CaseCall) (tenant : TenantContext) (i v : ℕ) (s s' : CaseStore)
    (y : Case) (now : ℕ) : Type 0 where
  pub row : Case
  pub found : first (is_case tenant.organization_id i) s.cases ≡ some row
  pub current : row.lock_version ≡ v
  pub allowed : is_allowed (change_of c tenant.user_id (utc now)) row.status ≡ true
  pub status : y.status ≡ next_status (change_of c tenant.user_id (utc now)) row.status
  pub stored : first (is_case tenant.organization_id i) s'.cases ≡ some (written y row)
  pub next : y.lock_version ≡ v + 1
  pub formed : WellFormed y

is_target_row :
    (o i v : ℕ) (row y : Case)
    → is_case o i row ≡ true
    → y.organization_id ≡ o
    → y.id ≡ i
    → row.lock_version ≡ v
    → y.lock_version ≡ v + 1
    → is_target y row ≡ true
is_target_row o i v row y a b c d e = ground arith

-- The part that every change shares.
changing-CaseVersioned :
    (c : CaseCall) (draw : CaseDraw) (tenant : TenantContext) (i v : ℕ) (event : AuditEventType)
    (tx tx' : Tx CaseStore) (y : Case)
    → (locked_case tenant i v >>= λ x.
          lift (apply (change_of c tenant.user_id (utc draw.now)) x) >>= λ z.
          store_case draw tenant event z)
        tx
      ≡ (ok y, tx')
    → CaseVersioned c tenant i v tx.working tx'.committed y draw.now
changing-CaseVersioned c draw tenant i v event tx tx' y h =
    let change = change_of c tenant.user_id (utc draw.now) in
    let (x, a, lock, h) = >>=-returns (locked_case tenant i v) _ tx h in
    let (z, made, h) = lift-then (apply change x) _ h in
    let (y_eq, stored) = store_case-returns draw tenant event z y a tx' h in
    let l = locked_case-returns tenant i v tx a x lock in
    let (id, organization, status, version) = case_from_record-eq-ok l.row x l.read in
    let step = apply-Changed change x y (made ∙ ap ok (sym y_eq)) in
    let hit = first-satisfies (is_case tenant.organization_id i) tx.working.cases l.row l.found in
    let (row_organization, row_id) = is_case_keys tenant.organization_id i l.row hit in
    let next = step.version ∙ ap (λ n. n + 1) (version ∙ l.version) in
    record {
      row = l.row;
      found = l.found;
      current = l.version;
      allowed = ap (is_allowed change) (sym status) ∙ step.allowed;
      status = step.status ∙ ap (next_status change) status;
      stored =
          ap (first (is_case tenant.organization_id i)) (
            stored
            ∙ ap (λ w. replace_where (is_target w) (written w) a.working.cases) (sym y_eq)
            ∙ ap (λ w. replace_where (is_target y) (written y) w.working.cases) l.kept)
          ∙ first-replace_where (is_case tenant.organization_id i) (is_target y) (written y)
              (λ w. refl) tx.working.cases l.row l.found
              (is_target_row tenant.organization_id i v l.row y hit
                (step.same_organization ∙ organization ∙ row_organization)
                (step.same_id ∙ id ∙ row_id) l.version next);
      next = next;
      formed = step.formed;
    }

perform-CaseVersioned :
    (c : CaseCall) (draw : CaseDraw) (tenant : TenantContext) (i v : ℕ) (tx tx' : Tx CaseStore)
    (y : Case)
    → perform c draw tenant i v tx ≡ (ok y, tx')
    → CaseVersioned c tenant i v tx.working tx'.committed y draw.now
unfolding update close reopen archive
perform-CaseVersioned (update_call t s p r) draw tenant i v tx tx' y h =
    let (_, _, h) = lift-then (require tenant case_write) _ h in
    changing-CaseVersioned (update_call t s p r) draw tenant i v case_updated tx tx' y h
perform-CaseVersioned close_call draw tenant i v tx tx' y h =
    let (_, _, h) = lift-then (require tenant case_write) _ h in
    changing-CaseVersioned close_call draw tenant i v case_closed tx tx' y h
perform-CaseVersioned reopen_call draw tenant i v tx tx' y h =
    let (_, _, h) = lift-then (require tenant case_write) _ h in
    changing-CaseVersioned reopen_call draw tenant i v case_reopened tx tx' y h
perform-CaseVersioned archive_call draw tenant i v tx tx' y h =
    let (_, _, h) = lift-then (require tenant case_archive) _ h in
    changing-CaseVersioned archive_call draw tenant i v AuditEventType.case_archived tx tx' y h

pub case_versions :
    (c : CaseCall) (draw : CaseDraw) (tenant : TenantContext) (i v : ℕ) (s : CaseStore) (y : Case)
    → (run (perform c draw tenant i v) s).0 ≡ ok y
    → CaseVersioned c tenant i v s (run (perform c draw tenant i v) s).1 y draw.now
unfolding run
case_versions c draw tenant i v s y h =
    let tx : Tx CaseStore = record { committed = s; working = s } in
    perform-CaseVersioned c draw tenant i v tx (perform c draw tenant i v tx).1 y (returned _ h)
