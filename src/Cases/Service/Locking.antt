-- ===== src/Cases/Service/Locking.antt =====
-- What the calls that lock a case or a task have found.
use mathlib.Core.Option
use workflow_forge.Cases.Case.Laws.{case-post_init-Made}
use workflow_forge.Cases.Case.{Case}
use workflow_forge.Cases.Task.{CaseTask}
use workflow_forge.Cases.Store.{
  CaseStore, is_case, is_task, case_from_record, task_from_record, append_case_event,
}
use workflow_forge.Cases.Service.{locked_case, locked_task, get, record_case_if}
use workflow_forge.Base.{
  ℕ, Option, ◌≡◌, Bool, true, ok, Result, Error, raise_if, arith, some, not, read_optional,
  or_raise, ◌==◌, >>=-eq-ok, case_not_found, concurrency_conflict, false, ◌∙◌, ap, or_raise-eq-ok,
  sym, case_task_not_found, some-injective, none, refl,
}
use workflow_forge.Cases.Repository.{get_case, get_case_task}
use workflow_forge.Authorization.Context.{TenantContext}
use workflow_forge.Transaction.{Tx, gets, ◌>>=◌, pure}
use workflow_forge.Transaction.Rules.{>>=-returns}
use workflow_forge.Rows.{first}
use workflow_forge.Audit.{AuditEvent, append}
use workflow_forge.Transaction.Returns.{lift-then, change-returns, pure-returns, lift-returns}
use workflow_forge.Authorization.Policy.{require}
use workflow_forge.Identity.Roles.{case_read}
use workflow_forge.Sessions.Lifecycle.Refused.{read_optional-eq-ok}
use workflow_forge.Rows.Laws.{first-satisfies}

pub is_case_keys :
    (o i : ℕ) (x : Case) → is_case o i x ≡ true → (x.organization_id ≡ o) × (x.id ≡ i)
is_case_keys o i x h = (ground arith, ground arith)

pub is_task_keys :
    (o i t : ℕ) (x : CaseTask)
    → is_task o i t x ≡ true
    → (x.organization_id ≡ o) × (x.case_id ≡ i) × (x.id ≡ t)
is_task_keys o i t x h = (ground arith, ground arith, ground arith)

pub version_eq : (a b : ℕ) (e : Error) {u : Unit {0}} → raise_if (not (a == b)) e ≡ ok u → a ≡ b
version_eq a b e h = ground arith

pub case_from_record-eq-ok :
    (row x : Case)
    → case_from_record row ≡ ok x
    → (x.id ≡ row.id)
      × (x.organization_id ≡ row.organization_id)
      × (x.status ≡ row.status)
      × (x.lock_version ≡ row.lock_version)
unfolding case_from_record
case_from_record-eq-ok row x h =
    let m = case-post_init-Made _ x h in
    (m.same_id, m.same_organization, m.same_status, m.same_version)

pub case_from_record-priority :
    (row x : Case) → case_from_record row ≡ ok x → x.priority ≡ row.priority
unfolding case_from_record
case_from_record-priority row x h = (case-post_init-Made _ x h).same_priority

-- What `locked_case` has found.
pub record LockedCase (tenant : TenantContext) (i v : ℕ) (tx tx' : Tx CaseStore) (x : Case)
    : Type 0 where
  pub row : Case
  pub found : first (is_case tenant.organization_id i) tx.working.cases ≡ some row
  pub read : case_from_record row ≡ ok x
  pub version : row.lock_version ≡ v
  pub kept : tx' ≡ tx

pub locked_case-returns :
    (tenant : TenantContext) (i v : ℕ) (tx tx' : Tx CaseStore) (x : Case)
    → locked_case tenant i v tx ≡ (ok x, tx')
    → LockedCase tenant i v tx tx' x
unfolding locked_case get_case gets
locked_case-returns tenant i v tx tx' x h =
    let row = first (is_case tenant.organization_id i) tx.working.cases in
    let (found, read, h) = lift-then (read_optional case_from_record row) _ h in
    let (y, y_eq, h) = lift-then (or_raise found case_not_found) _ h in
    let (_, same, h) = lift-then (raise_if (not (y.lock_version == v)) concurrency_conflict) _ h in
    let (x_eq, kept) = pure-returns y h in
    let (r, r_eq, r_ok) =
      read_optional-eq-ok case_from_record row (read ∙ ap ok (or_raise-eq-ok found _ y_eq)) in
    let (_, _, _, version) = case_from_record-eq-ok r y r_ok in
    record {
      row = r;
      found = r_eq;
      read = r_ok ∙ ap ok (sym x_eq);
      version = sym version ∙ version_eq y.lock_version v concurrency_conflict same;
      kept = kept;
    }

-- What `locked_task` has found.
pub record LockedTask (tenant : TenantContext) (i t v : ℕ) (tx tx' : Tx CaseStore) (x : CaseTask)
    : Type 0 where
  pub row : CaseTask
  pub found : first (is_task tenant.organization_id i t) tx.working.tasks ≡ some row
  pub read : x ≡ task_from_record row
  pub version : row.lock_version ≡ v
  pub kept : tx' ≡ tx

get-kept :
    (tenant : TenantContext) (i : ℕ) (tx tx' : Tx CaseStore) {u : Unit {0}}
    → (get tenant i >>= λ _. pure tt) tx ≡ (ok u, tx')
    → tx' ≡ tx
unfolding get get_case gets
get-kept tenant i tx tx' h =
    let (x, a, got, h) = >>=-returns (get tenant i) _ tx h in
    let (_, end) = pure-returns tt h in
    let (_, _, got) = lift-then (require tenant case_read) _ got in
    let (found, _, got) =
      lift-then
        (read_optional case_from_record (first (is_case tenant.organization_id i) tx.working.cases))
        _ got in
    end ∙ (lift-returns (or_raise found case_not_found) got).1

map-eq-some :
    (o : Option CaseTask) (x : CaseTask)
    → Option.map task_from_record o ≡ some x
    → (row : CaseTask) × (o ≡ some row)
      × (x ≡ task_from_record row)
      × (row.lock_version ≡ x.lock_version)
unfolding task_from_record
map-eq-some none x h = cc
map-eq-some (some row) x h =
    (row, refl, sym (some-injective h), ap (λ w. w.lock_version) (some-injective h))

pub locked_task-returns :
    (tenant : TenantContext) (i t v : ℕ) (tx tx' : Tx CaseStore) (x : CaseTask)
    → locked_task tenant i t v tx ≡ (ok x, tx')
    → LockedTask tenant i t v tx tx' x
unfolding locked_task get_case_task gets
locked_task-returns tenant i t v tx tx' x h =
    let (_, a, seen, h) = >>=-returns (get tenant i >>= λ _. pure tt) _ tx h in
    let same_tx = get-kept tenant i tx a seen in
    let row = first (is_task tenant.organization_id i t) a.working.tasks in
    let (y, y_eq, h) =
      lift-then (or_raise (Option.map task_from_record row) case_task_not_found) _ h in
    let (_, same, h) = lift-then (raise_if (not (y.lock_version == v)) concurrency_conflict) _ h in
    let (x_eq, kept) = pure-returns y h in
    let (r, r_eq, y_read, same_version) = map-eq-some row y (or_raise-eq-ok _ _ y_eq) in
    record {
      row = r;
      found =
          ap (λ w. first (is_task tenant.organization_id i t) w.working.tasks) (sym same_tx) ∙ r_eq;
      read = x_eq ∙ y_read;
      version = same_version ∙ version_eq y.lock_version v concurrency_conflict same;
      kept = kept ∙ same_tx;
    }

-- What is recorded changes the table of events only.
pub record_case_if-returns :
    (b : Bool) (e : Result AuditEvent) (tx tx' : Tx CaseStore) {u : Unit {0}}
    → record_case_if b e tx ≡ (ok u, tx')
    → (tx'.working.cases ≡ tx.working.cases) × (tx'.working.tasks ≡ tx.working.tasks)
unfolding record_case_if append_case_event
record_case_if-returns true e tx tx' h =
    let (event, _, h) = lift-then e _ h in
    let (s, s_eq, end) = change-returns (append_case_event event) h in
    let (_, _, done) = >>=-eq-ok (append event tx.working.events) _ s_eq in (cc, cc)
record_case_if-returns false e tx tx' h = let (_, same) = pure-returns tt h in (cc, cc)

pub locked_case-organization :
    (tenant : TenantContext) (i v : ℕ) (tx tx' : Tx CaseStore) (x : Case)
    → locked_case tenant i v tx ≡ (ok x, tx')
    → x.organization_id ≡ tenant.organization_id
locked_case-organization tenant i v tx tx' x h =
    let l = locked_case-returns tenant i v tx tx' x h in
    let (_, o, _, _) = case_from_record-eq-ok l.row x l.read in
    let hit = first-satisfies (is_case tenant.organization_id i) tx.working.cases l.row l.found in
    o ∙ (is_case_keys tenant.organization_id i l.row hit).0

pub locked_task-organization :
    (tenant : TenantContext) (i t v : ℕ) (tx tx' : Tx CaseStore) (x : CaseTask)
    → locked_task tenant i t v tx ≡ (ok x, tx')
    → x.organization_id ≡ tenant.organization_id
unfolding task_from_record
locked_task-organization tenant i t v tx tx' x h =
    let l = locked_task-returns tenant i t v tx tx' x h in
    let hit = first-satisfies (is_task tenant.organization_id i t) tx.working.tasks l.row l.found in
    ap (λ w. w.organization_id) l.read ∙ (is_task_keys tenant.organization_id i t l.row hit).0
