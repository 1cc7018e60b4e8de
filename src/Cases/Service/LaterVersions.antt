-- ===== src/Cases/Service/LaterVersions.antt =====
-- No call of the case service takes a case or a task back to an earlier version.
use workflow_forge.Cases.Case.{Case}
use workflow_forge.Cases.Task.{CaseTask}
use workflow_forge.Rows.Versions.{
  Advanced, Advanced-refl, Advanced-transitive, Advanced-cons, Advanced-replace_where, first-fails,
}
use workflow_forge.Cases.Service.Effects.{Statements}
use workflow_forge.Cases.Store.{
  delete_case_document, CaseStore, insert_case, append_case_event, insert_case_document, set_case,
  insert_task, set_task, is_case, is_task, is_target, is_task_target, written, task_written,
}
use workflow_forge.Transaction.Growth.{IsPreorder}
use workflow_forge.Base.{
  ℕ, ok-transport, ◌≡◌, ok, subst, refl, true, sym, >>=-eq-ok, ◌==◌, ◌≤◌, arith, false, raise_if,
  any, raise_if-eq-ok,
}
use workflow_forge.Audit.{AuditEvent, append}
use workflow_forge.Cases.Store.Inserts.{
  insert_comment-eq-ok, insert_decision-eq-ok, insert_task-fresh, insert_task-eq-ok,
}
use workflow_forge.Cases.Service.TaskVersions.{set_task-eq-ok}

abbrev version_of : Case → ℕ
version_of x = x.lock_version

abbrev task_version_of : CaseTask → ℕ
task_version_of x = x.lock_version

-- Whatever case or task was found is found at the same version or a later one.
pub record IsLater (s s' : CaseStore) : Type 0 where
  pub cases : (o i : ℕ) → Advanced (is_case o i) (λ (x : Case). x.lock_version) s.cases s'.cases
  pub tasks :
      (o i t : ℕ) → Advanced (is_task o i t) (λ (x : CaseTask). x.lock_version) s.tasks s'.tasks

IsLater-refl : (s : CaseStore) → IsLater s s
IsLater-refl s = record {
  cases = λ o i. Advanced-refl (is_case o i) version_of s.cases;
  tasks = λ o i t. Advanced-refl (is_task o i t) task_version_of s.tasks;
}

pub IsLater-IsPreorder : IsPreorder IsLater
IsLater-IsPreorder = record {
  reflexive = IsLater-refl;
  transitive = λ {a} {b} {c} h k. record {
    cases = λ o i.
        Advanced-transitive (is_case o i) version_of a.cases b.cases c.cases (h.cases o i)
          (k.cases o i);
    tasks = λ o i t.
        Advanced-transitive (is_task o i t) task_version_of a.tasks b.tasks c.tasks (h.tasks o i t)
          (k.tasks o i t);
  };
}

-- What leaves the two tables alone
IsLater-same : (s s' : CaseStore) → s'.cases ≡ s.cases → s'.tasks ≡ s.tasks → IsLater s s'
IsLater-same s s' c t = record {
  cases = λ o i.
      subst (Advanced (is_case o i) version_of s.cases) (sym c)
        (Advanced-refl (is_case o i) version_of s.cases);
  tasks = λ o i t'.
      subst (Advanced (is_task o i t') task_version_of s.tasks) (sym t)
        (Advanced-refl (is_task o i t') task_version_of s.tasks);
}

insert_case-IsLater : (x : Case) (s s' : CaseStore) → insert_case x s ≡ ok s' → IsLater s s'
unfolding insert_case
insert_case-IsLater x s s' h =
    let (_, fresh, h) = >>=-eq-ok (raise_if (any (λ y. y.id == x.id) s.cases) _) _ h in
    let unused = raise_if-eq-ok (any (λ y. y.id == x.id) s.cases) _ fresh in
    ok-transport (IsLater s) h (record {
      cases = λ o i. Advanced-cons (is_case o i) version_of x s.cases λ y found.
          let (hit, other) = first-fails (is_case o i) (λ y. y.id == x.id) s.cases y found unused in
          apart o i y hit other;
      tasks = λ o i t. Advanced-refl (is_task o i t) task_version_of s.tasks;
    })
  where
    apart :
        (o i : ℕ) (y : Case) → is_case o i y ≡ true → (y.id == x.id) ≡ false → is_case o i x ≡ false
    apart o i y hit other = ground arith

set_case-IsLater : (x : Case) (s s' : CaseStore) → set_case x s ≡ ok s' → IsLater s s'
unfolding set_case
set_case-IsLater x s s' h = ok-transport (IsLater s) h (record {
  cases = λ o i.
      Advanced-replace_where (is_case o i) version_of (is_target x) (written x) (λ y. refl)
        (λ y hit. up y hit) s.cases;
  tasks = λ o i t. Advanced-refl (is_task o i t) task_version_of s.tasks;
})
  where
    up : (y : Case) → is_target x y ≡ true → y.lock_version ≤ x.lock_version
    up y hit = ground arith

insert_task-IsLater : (x : CaseTask) (s s' : CaseStore) → insert_task x s ≡ ok s' → IsLater s s'
insert_task-IsLater x s s' h =
    let unused = insert_task-fresh x s s' h in
    ok-transport (IsLater s) (insert_task-eq-ok x s s' h).0 (record {
      cases = λ o i. Advanced-refl (is_case o i) version_of s.cases;
      tasks = λ o i t. Advanced-cons (is_task o i t) task_version_of x s.tasks λ y found.
          let (hit, other) =
            first-fails (is_task o i t) (λ y. y.id == x.id) s.tasks y found unused in
          apart o i t y hit other;
    })
  where
    apart :
        (o i t : ℕ) (y : CaseTask)
        → is_task o i t y ≡ true
        → (y.id == x.id) ≡ false
        → is_task o i t x ≡ false
    apart o i t y hit other = ground arith

set_task-IsLater : (x : CaseTask) (s s' : CaseStore) → set_task x s ≡ ok s' → IsLater s s'
set_task-IsLater x s s' h = ok-transport (IsLater s) (set_task-eq-ok x s s' h) (record {
  cases = λ o i. Advanced-refl (is_case o i) version_of s.cases;
  tasks = λ o i t.
      Advanced-replace_where (is_task o i t) task_version_of (is_task_target x) (task_written x)
        (λ y. refl) (λ y hit. up y hit) s.tasks;
})
  where
    up : (y : CaseTask) → is_task_target x y ≡ true → y.lock_version ≤ x.lock_version
    up y hit = ground arith

delete_case_document-IsLater :
    (o i d : ℕ) (s s' : CaseStore) → delete_case_document o i d s ≡ ok s' → IsLater s s'
unfolding delete_case_document
delete_case_document-IsLater o i d s s' h = ok-transport (IsLater s) h (IsLater-same s _ refl refl)

append_case_event-IsLater :
    (e : AuditEvent) (s s' : CaseStore) → append_case_event e s ≡ ok s' → IsLater s s'
unfolding append_case_event
append_case_event-IsLater e s s' h =
    let (events, _, h) = >>=-eq-ok (append e s.events) _ h in
    ok-transport (IsLater s) h (IsLater-same s _ refl refl)

pub Statements-IsLater : (o : ℕ) → Statements IsLater o
unfolding insert_case_document
Statements-IsLater o = record {
  preorder = IsLater-IsPreorder;
  inserts_case = λ x own. insert_case-IsLater x;
  sets_case = λ x own. set_case-IsLater x;
  inserts_document = λ x own s s' free h. ok-transport (IsLater s) h (IsLater-same s _ refl refl);
  deletes_document = delete_case_document-IsLater o;
  inserts_comment = λ x own s s' h.
      ok-transport (IsLater s) (insert_comment-eq-ok x s s' h).0 (IsLater-same s _ refl refl);
  inserts_task = λ x own. insert_task-IsLater x;
  sets_task = λ x own. set_task-IsLater x;
  inserts_decision = λ x own s s' h.
      ok-transport (IsLater s) (insert_decision-eq-ok x s s' h).0 (IsLater-same s _ refl refl);
  appends_event = append_case_event-IsLater;
}
