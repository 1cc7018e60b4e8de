-- ===== src/Cases/Service.antt =====
-- `CaseService` of packages/application/src/workflowforge_application/cases.py, with the
-- transaction that the API gives it.
pub mod Locking
pub mod Versions
pub mod TaskVersions
pub mod Effects
pub mod Tenancy
pub mod Links
pub mod LaterVersions
pub mod NoLostUpdate
use workflow_forge.Audit
use workflow_forge.Cases.Case
use workflow_forge.Cases.Task
use workflow_forge.Cases.Case.{Case, CasePriority, CaseDocument, CaseComment, CaseDecision}
use workflow_forge.Cases.Task.{CaseTask, CaseTaskStatus}
use workflow_forge.Base.{
  ℕ, Bool, Option, Result, List, some, or_raise, none, case_not_found, case_task_not_found,
  raise_if, false, not, true, ◌==◌, concurrency_conflict,
}
use workflow_forge.Authorization.Context.{TenantContext}
use workflow_forge.Audit.{
  AuditEventType, AuditEvent, success, case_task_updated, case_task_completed, case_archived,
  case_updated, case_reopened, case_document_added, case_document_removed, case_closed,
  case_task_created, case_created, case_comment_created, case_decision_created,
}
use workflow_forge.Text.{Text}
use workflow_forge.Transaction.{Action, ◌>>=◌, ◌>>◌, pure, lift, change, commit}
use workflow_forge.Cases.Store.{CaseStore, append_case_event}
use workflow_forge.Time.{DateTime, utc}
use workflow_forge.Cases.Repository.{
  get_case, update_case, list_documents, get_case_task, update_case_task, list_comments, list_tasks,
  remove_case_document, add_case_document, list_decisions, add_comment, add_task, add_decision,
  add_case,
}
use workflow_forge.Authorization.Policy.{require}
use workflow_forge.Identity.Roles.{
  case_archive, case_write, case_manage_documents, case_read, Permission,
}

-- What a call draws: the time in UTC, the identifiers in the order of their calls, and whether there
-- is an audit recorder.
pub record CaseDraw : Type 0 where
  pub now : ℕ
  pub uuid : ℕ → ℕ
  pub audited : Bool

-- `if self._audit is None: return`
unfoldable pub record_case_if : Bool → Result AuditEvent → Action CaseStore (Unit {0})
record_case_if false event = pure tt
record_case_if true event = do e ← lift event; change (append_case_event e)

-- `_record`
abbrev pub record_case_event :
    CaseDraw → ℕ → AuditEventType → DateTime → TenantContext → Action CaseStore (Unit {0})
record_case_event draw k event_type now tenant = record_case_if draw.audited (
    Audit.create (draw.uuid k) event_type success now (some tenant.user_id)
      (some tenant.organization_id) none)

unfoldable pub create_case :
    CaseDraw
    → TenantContext
    → (title : Text) → (summary : Option Text) → CasePriority
    → (external_reference : Option Text) → Action CaseStore Case
create_case draw tenant title summary priority external_reference = do
  lift (require tenant case_write)
  opened ← lift (
      Case.create (draw.uuid 0) tenant.organization_id title summary priority external_reference
        tenant.user_id (utc draw.now))
  saved ← add_case opened
  record_case_event draw 1 case_created (utc draw.now) tenant
  commit
  pure saved

unfoldable pub get : TenantContext → (case_id : ℕ) → Action CaseStore Case
get tenant case_id = do
  lift (require tenant case_read)
  found ← get_case tenant.organization_id case_id
  lift (or_raise found case_not_found)

-- `_locked_case`
unfoldable pub locked_case : TenantContext → (case_id lock_version : ℕ) → Action CaseStore Case
locked_case tenant case_id lock_version = do
  found ← get_case tenant.organization_id case_id
  x ← lift (or_raise found case_not_found)
  lift (raise_if (not (x.lock_version == lock_version)) concurrency_conflict)
  pure x

-- `_locked_task`
unfoldable pub locked_task :
    TenantContext → (case_id task_id lock_version : ℕ) → Action CaseStore CaseTask
locked_task tenant case_id task_id lock_version = do
  get tenant case_id >> pure tt
  found ← get_case_task tenant.organization_id case_id task_id
  x ← lift (or_raise found case_task_not_found)
  lift (raise_if (not (x.lock_version == lock_version)) concurrency_conflict)
  pure x

-- What the changes of a case share: the new case is stored, recorded and committed.
unfoldable pub store_case : CaseDraw → TenantContext → AuditEventType → Case → Action CaseStore Case
store_case draw tenant event_type changed = do
  saved ← update_case changed
  record_case_event draw 0 event_type saved.updated_at tenant
  commit
  pure saved

unfoldable pub update :
    CaseDraw
    → TenantContext
    → (case_id lock_version : ℕ) → (title summary : Option Text) → Option CasePriority
    → (external_reference : Option Text) → Action CaseStore Case
update draw tenant case_id lock_version title summary priority external_reference = do
  lift (require tenant case_write)
  x ← locked_case tenant case_id lock_version
  updated ←
      lift (Case.update x title summary priority external_reference tenant.user_id (utc draw.now))
  store_case draw tenant case_updated updated

unfoldable pub close : CaseDraw → TenantContext → (case_id lock_version : ℕ) → Action CaseStore Case
close draw tenant case_id lock_version = do
  lift (require tenant case_write)
  x ← locked_case tenant case_id lock_version
  closed ← lift (Case.close x tenant.user_id (utc draw.now))
  store_case draw tenant case_closed closed

unfoldable pub reopen :
    CaseDraw → TenantContext → (case_id lock_version : ℕ) → Action CaseStore Case
reopen draw tenant case_id lock_version = do
  lift (require tenant case_write)
  x ← locked_case tenant case_id lock_version
  reopened ← lift (Case.reopen x tenant.user_id (utc draw.now))
  store_case draw tenant case_reopened reopened

unfoldable pub archive :
    CaseDraw → TenantContext → (case_id lock_version : ℕ) → Action CaseStore Case
archive draw tenant case_id lock_version = do
  lift (require tenant case_archive)
  x ← locked_case tenant case_id lock_version
  archived ← lift (Case.archive x tenant.user_id (utc draw.now))
  store_case draw tenant case_archived archived

unfoldable pub add_document :
    CaseDraw → TenantContext → (case_id document_id : ℕ) → Action CaseStore CaseDocument
add_document draw tenant case_id document_id = do
  lift (require tenant case_manage_documents)
  get tenant case_id >> pure tt
  saved ← add_case_document (record {
    id = draw.uuid 0;
    organization_id = tenant.organization_id;
    case_id = case_id;
    document_id = document_id;
    added_at = utc draw.now;
    added_by_user_id = tenant.user_id;
  })
  record_case_event draw 1 case_document_added saved.added_at tenant
  commit
  pure saved

unfoldable pub remove_document :
    CaseDraw → TenantContext → (case_id document_id : ℕ) → Action CaseStore Bool
remove_document draw tenant case_id document_id = do
  lift (require tenant case_manage_documents)
  get tenant case_id >> pure tt
  removed ← remove_case_document tenant.organization_id case_id document_id
  record_case_event draw 0 case_document_removed (utc draw.now) tenant
  commit
  pure removed

unfoldable pub create_comment :
    CaseDraw → TenantContext → (case_id : ℕ) → (body : Text) → Action CaseStore CaseComment
create_comment draw tenant case_id body = do
  lift (require tenant Permission.case_comment)
  get tenant case_id >> pure tt
  saved ← add_comment (record {
    id = draw.uuid 0;
    organization_id = tenant.organization_id;
    case_id = case_id;
    body = body;
    created_at = utc draw.now;
    created_by_user_id = tenant.user_id;
    updated_at = none;
    updated_by_user_id = none;
  })
  record_case_event draw 1 case_comment_created saved.created_at tenant
  commit
  pure saved

unfoldable pub create_decision :
    CaseDraw
    → TenantContext
    → (case_id : ℕ) → (decision_type rationale : Text) → Action CaseStore CaseDecision
create_decision draw tenant case_id decision_type rationale = do
  lift (require tenant Permission.case_decision)
  get tenant case_id >> pure tt
  saved ← add_decision (record {
    id = draw.uuid 0;
    organization_id = tenant.organization_id;
    case_id = case_id;
    decision_type = decision_type;
    rationale = rationale;
    created_at = utc draw.now;
    created_by_user_id = tenant.user_id;
  })
  record_case_event draw 1 case_decision_created saved.created_at tenant
  commit
  pure saved

unfoldable pub create_task :
    CaseDraw
    → TenantContext
    → (case_id : ℕ) → (title : Text) → (description : Option Text)
    → (assigned_to_user_id : Option ℕ) → (due_at : Option DateTime) → Action CaseStore CaseTask
create_task draw tenant case_id title description assigned_to_user_id due_at = do
  lift (require tenant Permission.case_task)
  get tenant case_id >> pure tt
  saved ← add_task (record {
    id = draw.uuid 0;
    organization_id = tenant.organization_id;
    case_id = case_id;
    title = title;
    description = description;
    status = CaseTaskStatus.open_;
    assigned_to_user_id = assigned_to_user_id;
    due_at = due_at;
    completed_at = none;
    completed_by_user_id = none;
    created_at = utc draw.now;
    created_by_user_id = tenant.user_id;
    updated_at = utc draw.now;
    updated_by_user_id = tenant.user_id;
    lock_version = 1;
  })
  record_case_event draw 1 case_task_created (utc draw.now) tenant
  commit
  pure saved

-- What the changes of a task share
unfoldable pub store_task :
    CaseDraw → TenantContext → AuditEventType → CaseTask → Action CaseStore CaseTask
store_task draw tenant event_type changed = do
  saved ← update_case_task changed
  record_case_event draw 0 event_type saved.updated_at tenant
  commit
  pure saved

unfoldable pub update_task :
    CaseDraw
    → TenantContext
    → (case_id task_id lock_version : ℕ) → (title description : Option Text)
    → (assigned_to_user_id : Option ℕ) → (due_at : Option DateTime) → Action CaseStore CaseTask
update_task draw tenant case_id task_id lock_version title description assigned_to_user_id due_at =
    do
      lift (require tenant Permission.case_task)
      x ← locked_task tenant case_id task_id lock_version
      updated ←
          lift (
            Task.update x title description assigned_to_user_id due_at tenant.user_id
              (utc draw.now))
      store_task draw tenant case_task_updated updated

unfoldable pub complete_task :
    CaseDraw → TenantContext → (case_id task_id lock_version : ℕ) → Action CaseStore CaseTask
complete_task draw tenant case_id task_id lock_version = do
  lift (require tenant Permission.case_task)
  x ← locked_task tenant case_id task_id lock_version
  completed ← lift (Task.complete x tenant.user_id (utc draw.now))
  store_task draw tenant case_task_completed completed

unfoldable pub details :
    TenantContext
    → (case_id : ℕ)
    → Action CaseStore (List CaseDocument × List CaseComment × List CaseTask × List CaseDecision)
details tenant case_id = do
  get tenant case_id >> pure tt
  documents ← list_documents tenant.organization_id case_id
  comments ← list_comments tenant.organization_id case_id
  tasks ← list_tasks tenant.organization_id case_id
  decisions ← list_decisions tenant.organization_id case_id
  pure (documents, comments, tasks, decisions)
