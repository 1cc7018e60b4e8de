-- ===== src/Cases/Service/TaskVersions.antt =====
-- Optimistic locking of the tasks of a case.
use workflow_forge.Cases.Task
use workflow_forge.Cases.Task.{CaseTask, CaseTaskStatus, completed}
use workflow_forge.Cases.Store.{
  CaseStore, is_task, is_task_target, task_written, set_task, task_from_record, task_fits,
  is_assignable,
}
use workflow_forge.Cases.Service.{
  update_task, complete_task, store_task, locked_task, record_case_event, CaseDraw,
}
use workflow_forge.Base.{
  Option, ℕ, ◌≡◌, ok, true, Result, ◌+◌, some, any, arith, >>=-eq-ok, raise_if, ◌&&◌, ◌∙◌, sym, not,
  ap, ok-injective, refl,
}
use workflow_forge.Cases.Repository.{update_case_task}
use workflow_forge.Transaction.{run, Tx, Action, ◌>>=◌, lift, change, pure, commit}
use workflow_forge.Authorization.Context.{TenantContext}
use workflow_forge.Audit.{AuditEventType, case_task_updated, case_task_completed}
use workflow_forge.Text.{Text}
use workflow_forge.Rows.{first, replace_where}
use workflow_forge.Time.{DateTime, utc}
use workflow_forge.Transaction.Returns.{
  returned, lift-then, change-returns, pure-returns, commit-returns,
}
use workflow_forge.Transaction.Rules.{>>=-returns}
use workflow_forge.Authorization.Policy.{require}
use workflow_forge.Identity.Roles.{Permission}
use workflow_forge.Cases.Service.Locking.{locked_task-returns, record_case_if-returns, is_task_keys}
use workflow_forge.Rows.Laws.{first-satisfies, first-replace_where}

-- A call of the service that changes a task.
pub data TaskCall : Type 0 where
  update_call : (title description : Option Text) → Option ℕ → Option DateTime → TaskCall
  complete_call : TaskCall

abbrev pub perform : TaskCall → CaseDraw → TenantContext → (i t v : ℕ) → Action CaseStore CaseTask
perform (update_call title description user due) draw tenant i t v =
    update_task draw tenant i t v title description user due
perform complete_call draw tenant i t v = complete_task draw tenant i t v

-- The method of the task that the call applies.
abbrev pub apply_task : TaskCall → (actor : ℕ) → DateTime → CaseTask → Result CaseTask
apply_task (update_call title description user due) actor now x =
    Task.update x title description user due actor now
apply_task complete_call actor now x = Task.complete x actor now

abbrev pub status_after : TaskCall → CaseTaskStatus → CaseTaskStatus
status_after (update_call _ _ _ _) s = s
status_after complete_call s = completed

pub apply_task-kept :
    (c : TaskCall) (actor : ℕ) (now : DateTime) (x y : CaseTask)
    → apply_task c actor now x ≡ ok y
    → (y.id ≡ x.id)
      × (y.organization_id ≡ x.organization_id)
      × (y.case_id ≡ x.case_id)
      × (y.lock_version ≡ x.lock_version + 1)
      × (y.status ≡ status_after c x.status)
unfolding Task.update Task.complete
apply_task-kept (update_call title description user due) actor now x y h = ground arith
apply_task-kept complete_call actor now x y h = ground arith

pub set_task-eq-ok :
    (x : CaseTask) (s s' : CaseStore)
    → set_task x s ≡ ok s'
    → ok (record s { tasks = replace_where (is_task_target x) (task_written x) s.tasks }) ≡ ok s'
unfolding set_task
set_task-eq-ok x s s' h =
    let hit = any (is_task_target x) s.tasks in
    let (_, _, h) = >>=-eq-ok (raise_if (hit && not (task_fits x)) _) _ h in
    let (_, _, h) =
      >>=-eq-ok (raise_if (hit && not (is_assignable s x.assigned_to_user_id)) _) _ h in
    h

store_task-returns :
    (draw : CaseDraw) (tenant : TenantContext) (event : AuditEventType) (x y : CaseTask)
    (tx tx' : Tx CaseStore)
    → store_task draw tenant event x tx ≡ (ok y, tx')
    → (y ≡ x)
      × (tx'.committed.tasks ≡ replace_where (is_task_target x) (task_written x) tx.working.tasks)
unfolding store_task update_case_task
store_task-returns draw tenant event x y tx tx' h =
    let (saved, a, stored, h) = >>=-returns (update_case_task x) _ tx h in
    let (_, c, wrote, kept) = >>=-returns (change (set_task x)) (λ _. pure x) tx stored in
    let (s, s_ok, c_eq) = change-returns (set_task x) wrote in
    let (saved_eq, a_eq) = pure-returns x kept in
    let (_, d, recorded, h) =
      >>=-returns (record_case_event draw 0 event saved.updated_at tenant) _ a h in
    let (_, same) = record_case_if-returns draw.audited _ a d recorded in
    let (_, f, committed, h) = >>=-returns commit _ d h in
    let (y_eq, end) = pure-returns saved h in
    (
      y_eq ∙ saved_eq,
      ap (λ t. t.committed.tasks) (end ∙ commit-returns d committed)
          ∙ same
          ∙ ap (λ t. t.working.tasks) (a_eq ∙ c_eq)
          ∙ ap (λ s. s.tasks) (sym (ok-injective (set_task-eq-ok x tx.working s s_ok))),
    )

-- What a change of a task that returns has found and stored.
pub record TaskVersioned (c : TaskCall) (tenant : TenantContext) (i t v : ℕ) (s s' : CaseStore)
    (y : CaseTask) : Type 0 where
  pub row : CaseTask
  pub found : first (is_task tenant.organization_id i t) s.tasks ≡ some row
  pub current : row.lock_version ≡ v
  pub status : y.status ≡ status_after c row.status
  pub stored : first (is_task tenant.organization_id i t) s'.tasks ≡ some (task_written y row)
  pub next : y.lock_version ≡ v + 1

is_task_target_row :
    (o i t v : ℕ) (row y : CaseTask)
    → is_task o i t row ≡ true
    → y.organization_id ≡ o
    → y.case_id ≡ i
    → y.id ≡ t
    → row.lock_version ≡ v
    → y.lock_version ≡ v + 1
    → is_task_target y row ≡ true
is_task_target_row o i t v row y a b c d e f = ground arith

-- The part that both changes share.
changing-TaskVersioned :
    (c : TaskCall) (draw : CaseDraw) (tenant : TenantContext) (i t v : ℕ) (event : AuditEventType)
    (tx tx' : Tx CaseStore) (y : CaseTask)
    → (locked_task tenant i t v >>= λ x.
          lift (apply_task c tenant.user_id (utc draw.now) x) >>= λ z.
          store_task draw tenant event z)
        tx
      ≡ (ok y, tx')
    → TaskVersioned c tenant i t v tx.working tx'.committed y
unfolding task_from_record
changing-TaskVersioned c draw tenant i t v event tx tx' y h =
    let o = tenant.organization_id in
    let (x, a, lock, h) = >>=-returns (locked_task tenant i t v) _ tx h in
    let (z, made, h) = lift-then (apply_task c tenant.user_id (utc draw.now) x) _ h in
    let (y_eq, stored) = store_task-returns draw tenant event z y a tx' h in
    let l = locked_task-returns tenant i t v tx a x lock in
    let (id, organization, in_case, version, status) =
      apply_task-kept c tenant.user_id (utc draw.now) x y (made ∙ ap ok (sym y_eq)) in
    let hit = first-satisfies (is_task o i t) tx.working.tasks l.row l.found in
    let (row_organization, row_case, row_id) = is_task_keys o i t l.row hit in
    let next = version ∙ ap (λ n. n + 1) (ap (λ w. w.lock_version) l.read ∙ l.version) in
    record {
      row = l.row;
      found = l.found;
      current = l.version;
      status = status ∙ ap (λ w. status_after c w.status) l.read;
      stored =
          ap (first (is_task o i t)) (
            stored
            ∙ ap (λ w. replace_where (is_task_target w) (task_written w) a.working.tasks) (sym y_eq)
            ∙ ap (λ w. replace_where (is_task_target y) (task_written y) w.working.tasks) l.kept)
          ∙ first-replace_where (is_task o i t) (is_task_target y) (task_written y) (λ w. refl)
              tx.working.tasks l.row l.found
              (is_task_target_row o i t v l.row y hit
                (organization ∙ ap (λ w. w.organization_id) l.read ∙ row_organization)
                (in_case ∙ ap (λ w. w.case_id) l.read ∙ row_case)
                (id ∙ ap (λ w. w.id) l.read ∙ row_id) l.version next);
      next = next;
    }

perform-TaskVersioned :
    (c : TaskCall) (draw : CaseDraw) (tenant : TenantContext) (i t v : ℕ) (tx tx' : Tx CaseStore)
    (y : CaseTask)
    → perform c draw tenant i t v tx ≡ (ok y, tx')
    → TaskVersioned c tenant i t v tx.working tx'.committed y
unfolding update_task complete_task
perform-TaskVersioned (update_call a b u d) draw tenant i t v tx tx' y h =
    let (_, _, h) = lift-then (require tenant Permission.case_task) _ h in
    changing-TaskVersioned (update_call a b u d) draw tenant i t v case_task_updated tx tx' y h
perform-TaskVersioned complete_call draw tenant i t v tx tx' y h =
    let (_, _, h) = lift-then (require tenant Permission.case_task) _ h in
    changing-TaskVersioned complete_call draw tenant i t v case_task_completed tx tx' y h

pub task_versions :
    (c : TaskCall) (draw : CaseDraw) (tenant : TenantContext) (i t v : ℕ) (s : CaseStore)
    (y : CaseTask)
    → (run (perform c draw tenant i t v) s).0 ≡ ok y
    → TaskVersioned c tenant i t v s (run (perform c draw tenant i t v) s).1 y
unfolding run
task_versions c draw tenant i t v s y h =
    let tx : Tx CaseStore = record { committed = s; working = s } in
    perform-TaskVersioned c draw tenant i t v tx (perform c draw tenant i t v tx).1 y (returned _ h)
