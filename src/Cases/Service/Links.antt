-- ===== src/Cases/Service/Links.antt =====
-- What belongs to a case stays attached to a case of the same organization.
use workflow_forge.Transaction.{run}
use workflow_forge.Cases.Service.TaskVersions
use workflow_forge.Cases.Case.{Case, CaseDocument, CaseComment, CaseDecision, CasePriority}
use workflow_forge.Cases.Task.{CaseTask}
use workflow_forge.Cases.Store.{
  CaseStore, is_case, is_target, written, is_task_target, task_written, membership_violation,
  is_member, insert_case, set_case, delete_case_document, insert_comment, insert_task, set_task,
  insert_decision, append_case_event, insert_case_document,
}
use workflow_forge.Cases.Service.{
  CaseDraw, create_case, add_document, remove_document, create_comment, create_decision,
  create_task,
}
use workflow_forge.Cases.Service.Versions.{CaseCall, perform}
use workflow_forge.Cases.Service.TaskVersions.{TaskCall, set_task-eq-ok}
use workflow_forge.Rows.{drop_where, replace_where}
use workflow_forge.Base.{
  List, ℕ, ◌≡◌, All, ◌∷◌, Bool-cases, any, Bool, false, ok, [], arith, inl, ok-transport, true,
  ◌==◌, Option, >>=-eq-ok, refl, raise_if, inr, ◌&&◌, ◌∙◌,
}
use workflow_forge.Authorization.Context.{TenantContext}
use workflow_forge.Audit.{AuditEvent, append}
use workflow_forge.Transaction.Growth.{IsPreorder, run-Grows}
use workflow_forge.Cases.Service.Effects.{
  Statements, Grows-perform, Grows-perform_task, Grows-create_case, Grows-add_document,
  Grows-remove_document, Grows-create_comment, Grows-create_decision, Grows-create_task,
}
use workflow_forge.Text.{Text}
use workflow_forge.Cases.Store.Inserts.{
  insert_task-eq-ok, insert_comment-eq-ok, insert_decision-eq-ok,
}
use workflow_forge.Time.{DateTime}

-- A row with this organization and this case has a case.
abbrev pub Attached : List Case → (organization_id case_id : ℕ) → Type 0
Attached cases o i = any (is_case o i) cases ≡ true

-- The document of a row is a document of the organization.
abbrev pub Known : List (ℕ × ℕ) → CaseDocument → Type 0
Known documents x = any (λ d. d.0 == x.organization_id && d.1 == x.document_id) documents ≡ true

pub record Linked (s : CaseStore) : Type 0 where
  pub memberships :
      All (λ (x : CaseDocument). Attached s.cases x.organization_id x.case_id) s.memberships
  pub known : All (Known s.documents) s.memberships
  pub comments : All (λ (x : CaseComment). Attached s.cases x.organization_id x.case_id) s.comments
  pub tasks : All (λ (x : CaseTask). Attached s.cases x.organization_id x.case_id) s.tasks
  pub decisions :
      All (λ (x : CaseDecision). Attached s.cases x.organization_id x.case_id) s.decisions

abbrev Keeps : CaseStore → CaseStore → Type 0
Keeps s s' = Linked s → Linked s'

Keeps-IsPreorder : IsPreorder Keeps
Keeps-IsPreorder = record { reflexive = λ s h. h; transitive = λ h k l. k (h l) }

module _ {A : Type 0} where
  All-mono : {P Q : A → Type 0} (xs : List A) → ((x : A) → P x → Q x) → All P xs → All Q xs
  All-mono [] k h = tt
  All-mono (x ∷ xs) k h = (k x h.0, All-mono xs k h.1)

  All-drop_where :
      (P : A → Type 0) (t : A → Bool) (xs : List A) → All P xs → All P (drop_where t xs)
  unfolding drop_where
  All-drop_where P t [] h = tt
  All-drop_where P t (x ∷ xs) h = elim (Bool-cases (t x)) [
    | inl e ↦ rw e (All-drop_where P t xs h.1)
    | inr e ↦ rw e (h.0, All-drop_where P t xs h.1)
  ]

  All-replace_where :
      {P : A → Type 0} (t : A → Bool) (write : A → A) (xs : List A)
      → ((x : A) → P x → P (write x))
      → All P xs
      → All P (replace_where t write xs)
  unfolding replace_where
  All-replace_where t write [] k h = tt
  All-replace_where t write (x ∷ xs) k h = elim (Bool-cases (t x)) [
    | inl e ↦ rw e (k x h.0, All-replace_where t write xs k h.1)
    | inr e ↦ rw e (h.0, All-replace_where t write xs k h.1)
  ]

  any-replace_where :
      (p t : A → Bool) (write : A → A) (xs : List A)
      → ((x : A) → p (write x) ≡ p x)
      → any p (replace_where t write xs) ≡ any p xs
  unfolding replace_where
  any-replace_where p t write [] k = refl
  any-replace_where p t write (x ∷ xs) k = ground (arith, k x, any-replace_where p t write xs k)

Attached-cons :
    (y : Case) (cases : List Case) (o i : ℕ) → Attached cases o i → Attached (y ∷ cases) o i
Attached-cons y cases o i h = ground arith

-- More cases hold all that was attached.
Linked-of_cases :
    (s : CaseStore) (cases : List Case)
    → ((o i : ℕ) → Attached s.cases o i → Attached cases o i)
    → Linked s
    → Linked (record s { cases = cases })
Linked-of_cases s cases k l = record {
  memberships = All-mono s.memberships (λ x. k x.organization_id x.case_id) l.memberships;
  known = l.known;
  comments = All-mono s.comments (λ x. k x.organization_id x.case_id) l.comments;
  tasks = All-mono s.tasks (λ x. k x.organization_id x.case_id) l.tasks;
  decisions = All-mono s.decisions (λ x. k x.organization_id x.case_id) l.decisions;
}

insert_case-Keeps : (x : Case) (s s' : CaseStore) → insert_case x s ≡ ok s' → Keeps s s'
unfolding insert_case
insert_case-Keeps x s s' h =
    let (_, _, h) = >>=-eq-ok (raise_if (any (λ y. y.id == x.id) s.cases) _) _ h in
    ok-transport (Keeps s) h (Linked-of_cases s (x ∷ s.cases) (Attached-cons x s.cases))

set_case-Keeps : (x : Case) (s s' : CaseStore) → set_case x s ≡ ok s' → Keeps s s'
unfolding set_case
set_case-Keeps x s s' h = ok-transport (Keeps s) h (
    Linked-of_cases s (replace_where (is_target x) (written x) s.cases)
      λ o i a. any-replace_where (is_case o i) (is_target x) (written x) s.cases (λ y. refl) ∙ a)

delete_case_document-Keeps :
    (o i d : ℕ) (s s' : CaseStore) → delete_case_document o i d s ≡ ok s' → Keeps s s'
unfolding delete_case_document
delete_case_document-Keeps o i d s s' h = ok-transport (Keeps s) h λ l. record {
  memberships =
      All-drop_where (λ x. Attached s.cases x.organization_id x.case_id) (is_member o i d)
        s.memberships l.memberships;
  known = All-drop_where (Known s.documents) (is_member o i d) s.memberships l.known;
  comments = l.comments;
  tasks = l.tasks;
  decisions = l.decisions;
}

insert_comment-Keeps :
    (x : CaseComment) (s s' : CaseStore) → insert_comment x s ≡ ok s' → Keeps s s'
insert_comment-Keeps x s s' h =
    let (stored, linked) = insert_comment-eq-ok x s s' h in
    ok-transport (Keeps s) stored λ l. record {
      memberships = l.memberships;
      known = l.known;
      comments = (linked, l.comments);
      tasks = l.tasks;
      decisions = l.decisions;
    }

insert_task-Keeps : (x : CaseTask) (s s' : CaseStore) → insert_task x s ≡ ok s' → Keeps s s'
insert_task-Keeps x s s' h =
    let (stored, linked) = insert_task-eq-ok x s s' h in
    ok-transport (Keeps s) stored λ l. record {
      memberships = l.memberships;
      known = l.known;
      comments = l.comments;
      tasks = (linked, l.tasks);
      decisions = l.decisions;
    }

set_task-Keeps : (x : CaseTask) (s s' : CaseStore) → set_task x s ≡ ok s' → Keeps s s'
set_task-Keeps x s s' h = ok-transport (Keeps s) (set_task-eq-ok x s s' h) λ l. record {
  memberships = l.memberships;
  known = l.known;
  comments = l.comments;
  tasks =
      All-replace_where {P = λ (y : CaseTask). Attached s.cases y.organization_id y.case_id}
        (is_task_target x) (task_written x) s.tasks (λ y a. a) l.tasks;
  decisions = l.decisions;
}

insert_decision-Keeps :
    (x : CaseDecision) (s s' : CaseStore) → insert_decision x s ≡ ok s' → Keeps s s'
insert_decision-Keeps x s s' h =
    let (stored, linked) = insert_decision-eq-ok x s s' h in
    ok-transport (Keeps s) stored λ l. record {
      memberships = l.memberships;
      known = l.known;
      comments = l.comments;
      tasks = l.tasks;
      decisions = (linked, l.decisions);
    }

append_case_event-Keeps :
    (e : AuditEvent) (s s' : CaseStore) → append_case_event e s ≡ ok s' → Keeps s s'
unfolding append_case_event
append_case_event-Keeps e s s' h =
    let (events, _, h) = >>=-eq-ok (append e s.events) _ h in
    ok-transport (Keeps s) h λ l. record {
      memberships = l.memberships;
      known = l.known;
      comments = l.comments;
      tasks = l.tasks;
      decisions = l.decisions;
    }

not_violated :
    (s : CaseStore) (x : CaseDocument)
    → membership_violation s x ≡ false
    → Attached s.cases x.organization_id x.case_id × Known s.documents x
unfolding membership_violation
not_violated s x h = (ground arith, ground arith)

insert_case_document-Keeps :
    (x : CaseDocument) (s s' : CaseStore)
    → membership_violation s x ≡ false
    → insert_case_document x s ≡ ok s'
    → Keeps s s'
unfolding insert_case_document
insert_case_document-Keeps x s s' free h =
    let (attached, known) = not_violated s x free in
    ok-transport (Keeps s) h λ l. record {
      memberships = (attached, l.memberships);
      known = (known, l.known);
      comments = l.comments;
      tasks = l.tasks;
      decisions = l.decisions;
    }

Statements-Keeps : (o : ℕ) → Statements Keeps o
Statements-Keeps o = record {
  preorder = Keeps-IsPreorder;
  inserts_case = λ x own. insert_case-Keeps x;
  sets_case = λ x own. set_case-Keeps x;
  inserts_document = λ x own. insert_case_document-Keeps x;
  deletes_document = delete_case_document-Keeps o;
  inserts_comment = λ x own. insert_comment-Keeps x;
  inserts_task = λ x own. insert_task-Keeps x;
  sets_task = λ x own. set_task-Keeps x;
  inserts_decision = λ x own. insert_decision-Keeps x;
  appends_event = append_case_event-Keeps;
}

-- Every call of the service, whether it returns or raises, leaves all documents, comments, tasks and
-- decisions attached to a case of the organization that their row names, and the documents of cases
-- known in that organization, if they were so before the call.
pub case_links :
    (draw : CaseDraw) (tenant : TenantContext) (s : CaseStore) (i t v d : ℕ) (title body : Text)
    (text reference : Option Text) (priority : CasePriority) (user : Option ℕ)
    (due : Option DateTime)
    → Linked s
    → ((c : CaseCall) → Linked (run (perform c draw tenant i v) s).1)
      × ((c : TaskCall) → Linked (run (TaskVersions.perform c draw tenant i t v) s).1)
      × Linked (run (create_case draw tenant title text priority reference) s).1
      × Linked (run (add_document draw tenant i d) s).1
      × Linked (run (remove_document draw tenant i d) s).1
      × Linked (run (create_comment draw tenant i body) s).1
      × Linked (run (create_decision draw tenant i title body) s).1
      × Linked (run (create_task draw tenant i title text user due) s).1
case_links draw tenant s i t v d title body text reference priority user due l =
    let P = Keeps-IsPreorder in
    let S = Statements-Keeps tenant.organization_id in
    (
      λ c. run-Grows P _ s (Grows-perform Keeps draw tenant S c i v) l,
      λ c. run-Grows P _ s (Grows-perform_task Keeps draw tenant S c i t v) l,
      run-Grows P _ s (Grows-create_case Keeps draw tenant S title text priority reference) l,
      run-Grows P _ s (Grows-add_document Keeps draw tenant S i d) l,
      run-Grows P _ s (Grows-remove_document Keeps draw tenant S i d) l,
      run-Grows P _ s (Grows-create_comment Keeps draw tenant S i body) l,
      run-Grows P _ s (Grows-create_decision Keeps draw tenant S i title body) l,
      run-Grows P _ s (Grows-create_task Keeps draw tenant S i title text user due) l,
    )
