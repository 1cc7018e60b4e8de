-- ===== src/Cases/Service/Effects.antt =====
-- What holds of every statement of the case repository on the rows of one organization holds of
-- every use case of a tenant of that organization.
use workflow_forge.Cases.Service.TaskVersions
use workflow_forge.Cases.Case
use workflow_forge.Cases.Case.{Case, CaseDocument, CaseComment, CaseDecision, CasePriority}
use workflow_forge.Cases.Case.Laws.{apply, apply-Changed, create-organization}
use workflow_forge.Cases.Task.{CaseTask}
use workflow_forge.Cases.Store.{
  CaseStore, insert_case, set_case, delete_case_document, insert_comment, insert_task, set_task,
  insert_decision, append_case_event, membership_violation, insert_case_document, is_member,
  case_document_from_record,
}
use workflow_forge.Cases.Service
use workflow_forge.Cases.Service.{
  CaseDraw, create_case, get, locked_case, locked_task, store_case, store_task, add_document,
  remove_document, create_comment, create_decision, create_task, record_case_if,
}
use workflow_forge.Cases.Service.Versions.{
  CaseCall, perform, update_call, close_call, reopen_call, archive_call, change_of,
}
use workflow_forge.Cases.Service.TaskVersions.{TaskCall, apply_task, apply_task-kept}
use workflow_forge.Authorization.Context.{TenantContext}
use workflow_forge.Base.{
  ℕ, Result, Bool, ◌≡◌, Option, ok, refl, true, ◌∙◌, false, Bool-cases, inl, inr, or_raise,
  document_not_found,
}
use workflow_forge.Cases.Repository.{
  get_case, update_case_task, add_comment, update_case, remove_case_document, add_decision,
  add_task, get_case_task, add_case, add_case_document,
}
use workflow_forge.Transaction.Growth.{
  IsPreorder, Grows, Grows-bind, Grows-lift, Grows-change, Grows-gets, Grows-pure, Grows-lift-bind,
  Grows-commit, Grows-bind-returns, Grows-rollback,
}
use workflow_forge.Audit.{
  AuditEventType, AuditEvent, case_updated, case_closed, case_reopened, case_task_updated,
  case_task_completed,
}
use workflow_forge.Text.{Text}
use workflow_forge.Transaction.{◌>>=◌, pure, commit, lift, gets, ◌>>◌, change, rollback}
use workflow_forge.Time.{DateTime, utc}
use workflow_forge.Cases.Service.Locking.{locked_case-organization, locked_task-organization}
use workflow_forge.Rows.{first}

pub record Statements (R : CaseStore → CaseStore → Type 0) (o : ℕ) : Type 0 where
  pub preorder : IsPreorder R
  pub inserts_case :
      (x : Case) → x.organization_id ≡ o → (s s' : CaseStore) → insert_case x s ≡ ok s' → R s s'
  pub sets_case :
      (x : Case) → x.organization_id ≡ o → (s s' : CaseStore) → set_case x s ≡ ok s' → R s s'
  pub inserts_document :
      (x : CaseDocument)
      → x.organization_id ≡ o
      → (s s' : CaseStore) → membership_violation s x ≡ false
      → insert_case_document x s ≡ ok s'
      → R s s'
  pub deletes_document :
      (i d : ℕ) (s s' : CaseStore) → delete_case_document o i d s ≡ ok s' → R s s'
  pub inserts_comment :
      (x : CaseComment)
      → x.organization_id ≡ o
      → (s s' : CaseStore) → insert_comment x s ≡ ok s'
      → R s s'
  pub inserts_task :
      (x : CaseTask) → x.organization_id ≡ o → (s s' : CaseStore) → insert_task x s ≡ ok s' → R s s'
  pub sets_task :
      (x : CaseTask) → x.organization_id ≡ o → (s s' : CaseStore) → set_task x s ≡ ok s' → R s s'
  pub inserts_decision :
      (x : CaseDecision)
      → x.organization_id ≡ o
      → (s s' : CaseStore) → insert_decision x s ≡ ok s'
      → R s s'
  pub appends_event : (e : AuditEvent) (s s' : CaseStore) → append_case_event e s ≡ ok s' → R s s'

module _ (R : CaseStore → CaseStore → Type 0) (draw : CaseDraw) (tenant : TenantContext)
    (S : Statements R tenant.organization_id) where
  abbrev P : IsPreorder R
  P = S.preorder

  Grows-record_case_if : (b : Bool) (e : Result AuditEvent) → Grows R (record_case_if b e)
  unfolding record_case_if
  Grows-record_case_if true e =
      Grows-bind P _ _ (Grows-lift P e) λ x. Grows-change P _ (S.appends_event x)
  Grows-record_case_if false e = Grows-pure P tt

  -- The document that is there already, after a rollback
  Grows-existing :
      (x : CaseDocument)
      → Grows R (do
        rollback
        existing ←
            gets (λ s. first (is_member x.organization_id x.case_id x.document_id) s.memberships)
        row ← lift (or_raise existing document_not_found)
        lift (case_document_from_record row))
  Grows-existing x = Grows-bind P _ _ (Grows-rollback P) λ _.
      Grows-bind P _ _ (Grows-gets P _)
        λ existing. Grows-bind P _ _ (Grows-lift P _) λ row. Grows-lift P _

  Grows-add_case_document :
      (x : CaseDocument)
      → x.organization_id ≡ tenant.organization_id
      → Grows R (add_case_document x)
  unfolding add_case_document gets change insert_case_document lift
  Grows-add_case_document x own = record {
    at = λ tx h. elim (Bool-cases (membership_violation tx.working x)) [
      | inl e ↦ rw e ((Grows-existing x).at tx h)
      | inr e ↦ rw e (record {
        committed = P.reflexive tx.committed;
        working = P.transitive h (S.inserts_document x own tx.working _ e refl);
      })
    ];
  }

  -- What every use case ends with
  Grows-recorded :
      {A : Type 0} (e : Result AuditEvent) (a : A)
      → Grows R (record_case_if draw.audited e >>= λ _. commit >>= λ _. pure a)
  Grows-recorded e a =
      Grows-bind P _ _ (Grows-record_case_if draw.audited e)
        λ _. Grows-bind P _ _ (Grows-commit P) λ _. Grows-pure P a

  Grows-get_case : (i : ℕ) → Grows R (get_case tenant.organization_id i)
  unfolding get_case
  Grows-get_case i = Grows-bind P _ _ (Grows-gets P _) λ row. Grows-lift P _

  Grows-get : (i : ℕ) → Grows R (get tenant i)
  unfolding get
  Grows-get i =
      Grows-bind P _ _ (Grows-lift P _)
        λ _. Grows-bind P _ _ (Grows-get_case i) λ found. Grows-lift P _

  Grows-seen : (i : ℕ) → Grows R (get tenant i >>= λ _. pure tt)
  Grows-seen i = Grows-bind P _ _ (Grows-get i) λ _. Grows-pure P tt

  Grows-locked_case : (i v : ℕ) → Grows R (locked_case tenant i v)
  unfolding locked_case
  Grows-locked_case i v = Grows-bind P _ _ (Grows-get_case i) λ found.
      Grows-bind P _ _ (Grows-lift P _) λ x. Grows-bind P _ _ (Grows-lift P _) λ _. Grows-pure P x

  Grows-locked_task : (i t v : ℕ) → Grows R (locked_task tenant i t v)
  unfolding locked_task get_case_task
  Grows-locked_task i t v = Grows-bind P _ _ (Grows-seen i) λ _.
      Grows-bind P _ _ (Grows-gets P _) λ found.
        Grows-bind P _ _ (Grows-lift P _) λ x. Grows-bind P _ _ (Grows-lift P _) λ _. Grows-pure P x

  Grows-store_case :
      (event : AuditEventType) (x : Case)
      → x.organization_id ≡ tenant.organization_id
      → Grows R (store_case draw tenant event x)
  unfolding store_case update_case
  Grows-store_case event x own =
      Grows-bind P _ _ (Grows-bind P _ _ (Grows-change P _ (S.sets_case x own)) λ _. Grows-pure P x)
        λ saved. Grows-recorded _ saved

  Grows-store_task :
      (event : AuditEventType) (x : CaseTask)
      → x.organization_id ≡ tenant.organization_id
      → Grows R (store_task draw tenant event x)
  unfolding store_task update_case_task
  Grows-store_task event x own =
      Grows-bind P _ _ (Grows-bind P _ _ (Grows-change P _ (S.sets_task x own)) λ _. Grows-pure P x)
        λ saved. Grows-recorded _ saved

  changing-Grows :
      (c : CaseCall) (i v : ℕ) (event : AuditEventType)
      → Grows R (
          locked_case tenant i v >>= λ x.
          lift (apply (change_of c tenant.user_id (utc draw.now)) x) >>= λ z.
          store_case draw tenant event z)
  changing-Grows c i v event =
      let change = change_of c tenant.user_id (utc draw.now) in
      Grows-bind-returns P (locked_case tenant i v) _ (Grows-locked_case i v) λ x tx tx' lock.
        Grows-lift-bind P (apply change x) _ λ z made. Grows-store_case event z (
          (apply-Changed change x z made).same_organization
          ∙ locked_case-organization tenant i v tx tx' x lock)

  pub Grows-perform : (c : CaseCall) (i v : ℕ) → Grows R (perform c draw tenant i v)
  unfolding Service.update Service.close Service.reopen Service.archive
  Grows-perform (update_call t s p r) i v =
      Grows-bind P _ _ (Grows-lift P _) λ _. changing-Grows (update_call t s p r) i v case_updated
  Grows-perform close_call i v =
      Grows-bind P _ _ (Grows-lift P _) λ _. changing-Grows close_call i v case_closed
  Grows-perform reopen_call i v =
      Grows-bind P _ _ (Grows-lift P _) λ _. changing-Grows reopen_call i v case_reopened
  Grows-perform archive_call i v =
      Grows-bind P _ _ (Grows-lift P _)
        λ _. changing-Grows archive_call i v AuditEventType.case_archived

  changing_task-Grows :
      (c : TaskCall) (i t v : ℕ) (event : AuditEventType)
      → Grows R (
          locked_task tenant i t v >>= λ x.
          lift (apply_task c tenant.user_id (utc draw.now) x) >>= λ z.
          store_task draw tenant event z)
  changing_task-Grows c i t v event =
      Grows-bind-returns P (locked_task tenant i t v) _ (Grows-locked_task i t v) λ x tx tx' lock.
        Grows-lift-bind P (apply_task c tenant.user_id (utc draw.now) x) _ λ z made.
          Grows-store_task event z (
            (apply_task-kept c tenant.user_id (utc draw.now) x z made).1
            ∙ locked_task-organization tenant i t v tx tx' x lock)

  pub Grows-perform_task :
      (c : TaskCall) (i t v : ℕ) → Grows R (TaskVersions.perform c draw tenant i t v)
  unfolding Service.update_task Service.complete_task
  Grows-perform_task (TaskCall.update_call a b u d) i t v =
      Grows-bind P _ _ (Grows-lift P _)
        λ _. changing_task-Grows (TaskCall.update_call a b u d) i t v case_task_updated
  Grows-perform_task TaskCall.complete_call i t v =
      Grows-bind P _ _ (Grows-lift P _)
        λ _. changing_task-Grows TaskCall.complete_call i t v case_task_completed

  pub Grows-create_case :
      (t : Text) (s : Option Text) (p : CasePriority) (r : Option Text)
      → Grows R (create_case draw tenant t s p r)
  unfolding create_case add_case
  Grows-create_case t s p r = Grows-bind P _ _ (Grows-lift P _) λ _.
      Grows-lift-bind P (Case.create _ _ t s p r _ _) _ λ x made.
        Grows-bind P _ _
          (Grows-bind P _ _
            (Grows-change P _ (S.inserts_case x (create-organization _ _ t s p r _ _ x made)))
            λ _. Grows-lift P _)
          λ saved. Grows-recorded _ saved

  pub Grows-add_document : (i d : ℕ) → Grows R (add_document draw tenant i d)
  unfolding add_document
  Grows-add_document i d = Grows-bind P _ _ (Grows-lift P _) λ _.
      Grows-bind P _ _ (Grows-seen i)
        λ _. Grows-bind P _ _ (Grows-add_case_document _ refl) λ saved. Grows-recorded _ saved

  pub Grows-remove_document : (i d : ℕ) → Grows R (remove_document draw tenant i d)
  unfolding remove_document remove_case_document
  Grows-remove_document i d = Grows-bind P _ _ (Grows-lift P _) λ _.
      Grows-bind P _ _ (Grows-seen i) λ _.
        Grows-bind P _ _
          (Grows-bind P _ _ (Grows-gets P _) λ found.
            Grows-bind P _ _ (Grows-change P _ (S.deletes_document i d)) λ _. Grows-pure P found)
          λ removed. Grows-recorded _ removed

  pub Grows-create_comment : (i : ℕ) (body : Text) → Grows R (create_comment draw tenant i body)
  unfolding create_comment add_comment
  Grows-create_comment i body = Grows-bind P _ _ (Grows-lift P _) λ _.
      Grows-bind P _ _ (Grows-seen i) λ _.
        Grows-bind P _ _
          (Grows-bind P _ _ (Grows-change P _ (S.inserts_comment _ refl)) λ _. Grows-pure P _)
          λ saved. Grows-recorded _ saved

  pub Grows-create_decision :
      (i : ℕ) (kind why : Text) → Grows R (create_decision draw tenant i kind why)
  unfolding create_decision add_decision
  Grows-create_decision i kind why = Grows-bind P _ _ (Grows-lift P _) λ _.
      Grows-bind P _ _ (Grows-seen i) λ _.
        Grows-bind P _ _
          (Grows-bind P _ _ (Grows-change P _ (S.inserts_decision _ refl)) λ _. Grows-pure P _)
          λ saved. Grows-recorded _ saved

  pub Grows-create_task :
      (i : ℕ) (title : Text) (description : Option Text) (user : Option ℕ) (due : Option DateTime)
      → Grows R (create_task draw tenant i title description user due)
  unfolding create_task add_task
  Grows-create_task i title description user due = Grows-bind P _ _ (Grows-lift P _) λ _.
      Grows-bind P _ _ (Grows-seen i) λ _.
        Grows-bind P _ _
          (Grows-bind P _ _ (Grows-change P _ (S.inserts_task _ refl)) λ _. Grows-pure P _)
          λ saved. Grows-recorded _ saved
