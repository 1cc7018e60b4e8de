-- ===== src/Cases/Service/Tenancy.antt =====
-- A tenant's calls leave the cases of every other organization, and all that belongs to them, as they
-- are.
use workflow_forge.Transaction.{run}
use workflow_forge.Cases.Service.TaskVersions
use workflow_forge.Cases.Case.{Case, CaseDocument, CaseComment, CaseDecision, CasePriority}
use workflow_forge.Cases.Task.{CaseTask}
use workflow_forge.Cases.Store.{
  CaseStore, is_target, written, append_case_event, insert_case, set_case, insert_decision,
  set_task, insert_task, delete_case_document, insert_comment, insert_case_document, is_task_target,
  is_member, task_written,
}
use workflow_forge.Base.{
  ℕ, ◌∙◌, ◌≡◌, ◌==◌, true, arith, refl, ok, >>=-eq-ok, ok-transport, Option, raise_if, any,
}
use workflow_forge.Transaction.Growth.{IsPreorder, run-Grows}
use workflow_forge.Cases.Service.{
  add_document, remove_document, CaseDraw, create_case, create_comment, create_decision,
  create_task,
}
use workflow_forge.Cases.Service.Effects.{
  Statements, Grows-perform, Grows-perform_task, Grows-create_case, Grows-add_document,
  Grows-remove_document, Grows-create_comment, Grows-create_decision, Grows-create_task,
}
use workflow_forge.Audit.{AuditEvent, append}
use workflow_forge.Authorization.Context.{TenantContext}
use workflow_forge.Text.{Text}
use workflow_forge.Cases.Store.Inserts.{
  insert_decision-eq-ok, insert_comment-eq-ok, insert_task-eq-ok,
}
use workflow_forge.Cases.Service.TaskVersions.{set_task-eq-ok, TaskCall}
use workflow_forge.Time.{DateTime}
use workflow_forge.Cases.Service.Versions.{CaseCall, perform}
use workflow_forge.Rows.Owned.{SameRows-drop_where, SameRows-replace_where, SameRows, SameRows-cons}

-- Both states agree on the rows of the organizations other than `o`.
pub record SameOutside (o : ℕ) (s s' : CaseStore) : Type 0 where
  pub cases : SameRows (λ (x : Case). x.organization_id) o s.cases s'.cases
  pub memberships :
      SameRows (λ (x : CaseDocument). x.organization_id) o s.memberships s'.memberships
  pub comments : SameRows (λ (x : CaseComment). x.organization_id) o s.comments s'.comments
  pub tasks : SameRows (λ (x : CaseTask). x.organization_id) o s.tasks s'.tasks
  pub decisions : SameRows (λ (x : CaseDecision). x.organization_id) o s.decisions s'.decisions

SameOutside-IsPreorder : (o : ℕ) → IsPreorder (SameOutside o)
SameOutside-IsPreorder o = record {
  reflexive = λ s. record {
    cases = λ p n. refl;
    memberships = λ p n. refl;
    comments = λ p n. refl;
    tasks = λ p n. refl;
    decisions = λ p n. refl;
  };
  transitive = λ h k. record {
    cases = λ p n. k.cases p n ∙ h.cases p n;
    memberships = λ p n. k.memberships p n ∙ h.memberships p n;
    comments = λ p n. k.comments p n ∙ h.comments p n;
    tasks = λ p n. k.tasks p n ∙ h.tasks p n;
    decisions = λ p n. k.decisions p n ∙ h.decisions p n;
  };
}

module _ (o : ℕ) where
  insert_case-SameOutside :
      (x : Case)
      → x.organization_id ≡ o
      → (s s' : CaseStore) → insert_case x s ≡ ok s'
      → SameOutside o s s'
  unfolding insert_case
  insert_case-SameOutside x own s s' h =
      let (_, _, h) = >>=-eq-ok (raise_if (any (λ y. y.id == x.id) s.cases) _) _ h in
      ok-transport (SameOutside o s) h (record {
        cases = SameRows-cons (λ y. y.organization_id) o x s.cases own;
        memberships = λ p n. refl;
        comments = λ p n. refl;
        tasks = λ p n. refl;
        decisions = λ p n. refl;
      })

  set_case-SameOutside :
      (x : Case)
      → x.organization_id ≡ o
      → (s s' : CaseStore) → set_case x s ≡ ok s'
      → SameOutside o s s'
  unfolding set_case
  set_case-SameOutside x own s s' h = ok-transport (SameOutside o s) h (record {
    cases =
        SameRows-replace_where (λ y. y.organization_id) o (is_target x) (written x) (λ y. refl)
          (λ y hit. target_own y hit) s.cases;
    memberships = λ p n. refl;
    comments = λ p n. refl;
    tasks = λ p n. refl;
    decisions = λ p n. refl;
  })
    where
      target_own : (y : Case) → is_target x y ≡ true → y.organization_id ≡ o
      target_own y hit = ground arith

  insert_case_document-SameOutside :
      (x : CaseDocument)
      → x.organization_id ≡ o
      → (s s' : CaseStore) → insert_case_document x s ≡ ok s'
      → SameOutside o s s'
  unfolding insert_case_document
  insert_case_document-SameOutside x own s s' h = ok-transport (SameOutside o s) h (record {
    cases = λ p n. refl;
    memberships = SameRows-cons (λ y. y.organization_id) o x s.memberships own;
    comments = λ p n. refl;
    tasks = λ p n. refl;
    decisions = λ p n. refl;
  })

  delete_case_document-SameOutside :
      (i d : ℕ) (s s' : CaseStore) → delete_case_document o i d s ≡ ok s' → SameOutside o s s'
  unfolding delete_case_document
  delete_case_document-SameOutside i d s s' h = ok-transport (SameOutside o s) h (record {
    cases = λ p n. refl;
    memberships =
        SameRows-drop_where (λ y. y.organization_id) o (is_member o i d) (λ y hit. member_own y hit)
          s.memberships;
    comments = λ p n. refl;
    tasks = λ p n. refl;
    decisions = λ p n. refl;
  })
    where
      member_own : (y : CaseDocument) → is_member o i d y ≡ true → y.organization_id ≡ o
      member_own y hit = ground arith

  insert_comment-SameOutside :
      (x : CaseComment)
      → x.organization_id ≡ o
      → (s s' : CaseStore) → insert_comment x s ≡ ok s'
      → SameOutside o s s'
  insert_comment-SameOutside x own s s' h =
      ok-transport (SameOutside o s) (insert_comment-eq-ok x s s' h).0 (record {
        cases = λ p n. refl;
        memberships = λ p n. refl;
        comments = SameRows-cons (λ y. y.organization_id) o x s.comments own;
        tasks = λ p n. refl;
        decisions = λ p n. refl;
      })

  insert_task-SameOutside :
      (x : CaseTask)
      → x.organization_id ≡ o
      → (s s' : CaseStore) → insert_task x s ≡ ok s'
      → SameOutside o s s'
  insert_task-SameOutside x own s s' h =
      ok-transport (SameOutside o s) (insert_task-eq-ok x s s' h).0 (record {
        cases = λ p n. refl;
        memberships = λ p n. refl;
        comments = λ p n. refl;
        tasks = SameRows-cons (λ y. y.organization_id) o x s.tasks own;
        decisions = λ p n. refl;
      })

  set_task-SameOutside :
      (x : CaseTask)
      → x.organization_id ≡ o
      → (s s' : CaseStore) → set_task x s ≡ ok s'
      → SameOutside o s s'
  set_task-SameOutside x own s s' h =
      ok-transport (SameOutside o s) (set_task-eq-ok x s s' h) (record {
        cases = λ p n. refl;
        memberships = λ p n. refl;
        comments = λ p n. refl;
        tasks =
            SameRows-replace_where (λ y. y.organization_id) o (is_task_target x) (task_written x)
              (λ y. refl) (λ y hit. task_own y hit) s.tasks;
        decisions = λ p n. refl;
      })
    where
      task_own : (y : CaseTask) → is_task_target x y ≡ true → y.organization_id ≡ o
      task_own y hit = ground arith

  insert_decision-SameOutside :
      (x : CaseDecision)
      → x.organization_id ≡ o
      → (s s' : CaseStore) → insert_decision x s ≡ ok s'
      → SameOutside o s s'
  insert_decision-SameOutside x own s s' h =
      ok-transport (SameOutside o s) (insert_decision-eq-ok x s s' h).0 (record {
        cases = λ p n. refl;
        memberships = λ p n. refl;
        comments = λ p n. refl;
        tasks = λ p n. refl;
        decisions = SameRows-cons (λ y. y.organization_id) o x s.decisions own;
      })

  append_case_event-SameOutside :
      (e : AuditEvent) (s s' : CaseStore) → append_case_event e s ≡ ok s' → SameOutside o s s'
  unfolding append_case_event
  append_case_event-SameOutside e s s' h =
      let (events, _, h) = >>=-eq-ok (append e s.events) _ h in
      ok-transport (SameOutside o s) h (record {
        cases = λ p n. refl;
        memberships = λ p n. refl;
        comments = λ p n. refl;
        tasks = λ p n. refl;
        decisions = λ p n. refl;
      })

  Statements-SameOutside : Statements (SameOutside o) o
  Statements-SameOutside = record {
    preorder = SameOutside-IsPreorder o;
    inserts_case = insert_case-SameOutside;
    sets_case = set_case-SameOutside;
    inserts_document = λ x own s s' free. insert_case_document-SameOutside x own s s';
    deletes_document = delete_case_document-SameOutside;
    inserts_comment = insert_comment-SameOutside;
    inserts_task = insert_task-SameOutside;
    sets_task = set_task-SameOutside;
    inserts_decision = insert_decision-SameOutside;
    appends_event = append_case_event-SameOutside;
  }

-- Whether a call returns or raises, the rows of every organization other than the tenant's stay as
-- they were in the five tables of cases, their documents, comments, tasks and decisions: for the
-- creation of a case and its four changes, the adding and removal of a document, and the creation
-- and the changes of comments, decisions and tasks.
pub case_isolation :
    (draw : CaseDraw) (tenant : TenantContext) (s : CaseStore) (i t v d : ℕ) (title body : Text)
    (text reference : Option Text) (priority : CasePriority) (user : Option ℕ)
    (due : Option DateTime)
    → let o = tenant.organization_id in
      ((c : CaseCall) → SameOutside o s (run (perform c draw tenant i v) s).1)
      × ((c : TaskCall) → SameOutside o s (run (TaskVersions.perform c draw tenant i t v) s).1)
      × SameOutside o s (run (create_case draw tenant title text priority reference) s).1
      × SameOutside o s (run (add_document draw tenant i d) s).1
      × SameOutside o s (run (remove_document draw tenant i d) s).1
      × SameOutside o s (run (create_comment draw tenant i body) s).1
      × SameOutside o s (run (create_decision draw tenant i title body) s).1
      × SameOutside o s (run (create_task draw tenant i title text user due) s).1
case_isolation draw tenant s i t v d title body text reference priority user due =
    let R = SameOutside tenant.organization_id in
    let P = SameOutside-IsPreorder tenant.organization_id in
    let S = Statements-SameOutside tenant.organization_id in
    (
      λ c. run-Grows P _ s (Grows-perform R draw tenant S c i v),
      λ c. run-Grows P _ s (Grows-perform_task R draw tenant S c i t v),
      run-Grows P _ s (Grows-create_case R draw tenant S title text priority reference),
      run-Grows P _ s (Grows-add_document R draw tenant S i d),
      run-Grows P _ s (Grows-remove_document R draw tenant S i d),
      run-Grows P _ s (Grows-create_comment R draw tenant S i body),
      run-Grows P _ s (Grows-create_decision R draw tenant S i title body),
      run-Grows P _ s (Grows-create_task R draw tenant S i title text user due),
    )
