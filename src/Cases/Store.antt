-- ===== src/Cases/Store.antt =====
-- The tables of cases (packages/infrastructure/src/workflowforge_infrastructure/cases.py) and the
-- statements on them. The foreign keys to organizations and to the user who acts are left out: a
-- tenant context names rows that exist. The foreign key to the user of a task is kept.
pub mod Inserts
use workflow_forge.Cases.Case
use workflow_forge.Cases.Case.{Case, CaseDocument, CaseComment, CaseDecision}
use workflow_forge.Cases.Task.{CaseTask}
use workflow_forge.Base.{
  Bool, Option, Result, List, ℕ, ok, any, some, ◌==◌, true, ◌&&◌, ◌∷◌, ◌+◌, raise_if, leb, ◌||◌,
  none, not, length, document_error, nil_uuid, ◌>>◌, ◌>>=◌, data_error, integrity_error,
}
use workflow_forge.Time.{DateTime, utc, instant}
use workflow_forge.Audit.{AuditEvent, append}
use workflow_forge.Text.{Text}
use workflow_forge.Rows.{drop_where, replace_where}

pub record CaseStore : Type 0 where
  pub cases : List Case
  pub memberships : List CaseDocument
  pub comments : List CaseComment
  pub tasks : List CaseTask
  pub decisions : List CaseDecision
  pub documents : List (ℕ × ℕ)  -- the pairs of organization and identifier of the documents
  pub users : List ℕ
  pub events : List AuditEvent

-- The conditions of the queries
abbrev pub is_case : (organization_id case_id : ℕ) → Case → Bool
is_case o i row = row.organization_id == o && row.id == i

abbrev pub is_member : (organization_id case_id document_id : ℕ) → CaseDocument → Bool
is_member o i d row = row.organization_id == o && row.case_id == i && row.document_id == d

abbrev pub is_task : (organization_id case_id task_id : ℕ) → CaseTask → Bool
is_task o i t row = row.organization_id == o && row.case_id == i && row.id == t

-- `value.astimezone(UTC)`: a value without an offset is read in the local zone of the process, which
-- is UTC in the containers.
abbrev pub as_utc : DateTime → DateTime
as_utc d = utc (instant d)

abbrev pub as_utc_optional : Option DateTime → Option DateTime
as_utc_optional none = none
as_utc_optional (some d) = some (as_utc d)

-- `_case`
unfoldable pub case_from_record : Case → Result Case
case_from_record row = Case.post_init (record row {
  created_at = as_utc row.created_at;
  updated_at = as_utc row.updated_at;
  closed_at = as_utc_optional row.closed_at;
  archived_at = as_utc_optional row.archived_at;
})

-- `_case_document`
unfoldable pub case_document_from_record : CaseDocument → Result CaseDocument
case_document_from_record row = do
  raise_if (row.document_id == 0) (document_error nil_uuid)
  ok (record row { added_at = as_utc row.added_at })

-- `_comment`, `_task` and `_decision`
unfoldable pub comment_from_record : CaseComment → CaseComment
comment_from_record row = record row {
  created_at = as_utc row.created_at;
  updated_at = as_utc_optional row.updated_at;
}

unfoldable pub task_from_record : CaseTask → CaseTask
task_from_record row = record row {
  due_at = as_utc_optional row.due_at;
  completed_at = as_utc_optional row.completed_at;
  created_at = as_utc row.created_at;
  updated_at = as_utc row.updated_at;
}

unfoldable pub decision_from_record : CaseDecision → CaseDecision
decision_from_record row = record row { created_at = as_utc row.created_at }

-- The foreign key from what belongs to a case to the case
abbrev pub has_case : CaseStore → (organization_id case_id : ℕ) → Bool
has_case s o i = any (is_case o i) s.cases

-- A text that a column of bounded length takes
abbrev pub fits : ℕ → Text → Bool
fits n t = leb (length t) n

abbrev pub fits_optional : ℕ → Option Text → Bool
fits_optional n none = true
fits_optional n (some t) = fits n t

unfoldable pub insert_case : Case → CaseStore → Result CaseStore
insert_case x s = do
  raise_if (any (λ y. y.id == x.id) s.cases) integrity_error
  ok (record s { cases = x ∷ s.cases })

-- The condition of the `UPDATE` of a case, with `lock_version == case.lock_version - 1`
abbrev pub is_target : Case → Case → Bool
is_target x row = is_case x.organization_id x.id row && row.lock_version + 1 == x.lock_version

-- The columns that it sets
abbrev pub written : Case → Case → Case
written x row = record row {
  title = x.title;
  summary = x.summary;
  status = x.status;
  priority = x.priority;
  external_reference = x.external_reference;
  updated_at = x.updated_at;
  updated_by_user_id = x.updated_by_user_id;
  closed_at = x.closed_at;
  closed_by_user_id = x.closed_by_user_id;
  archived_at = x.archived_at;
  archived_by_user_id = x.archived_by_user_id;
  lock_version = x.lock_version;
}

unfoldable pub set_case : Case → CaseStore → Result CaseStore
set_case x s = ok (record s { cases = replace_where (is_target x) (written x) s.cases })

-- A constraint of `case_documents` is violated.
unfoldable pub membership_violation : CaseStore → CaseDocument → Bool
membership_violation s x =
    any (λ y. y.id == x.id) s.memberships
    || any (λ y. y.case_id == x.case_id && y.document_id == x.document_id) s.memberships
    || not (has_case s x.organization_id x.case_id)
    || not (any (λ d. d.0 == x.organization_id && d.1 == x.document_id) s.documents)

unfoldable pub insert_case_document : CaseDocument → CaseStore → Result CaseStore
insert_case_document x s = ok (record s { memberships = x ∷ s.memberships })

unfoldable pub delete_case_document :
    (organization_id case_id document_id : ℕ) → CaseStore → Result CaseStore
delete_case_document o i d s =
    ok (record s { memberships = drop_where (is_member o i d) s.memberships })

unfoldable pub insert_comment : CaseComment → CaseStore → Result CaseStore
insert_comment x s = do
  raise_if (not (fits 4000 x.body)) data_error
  raise_if (any (λ y. y.id == x.id) s.comments) integrity_error
  raise_if (not (has_case s x.organization_id x.case_id)) integrity_error
  ok (record s { comments = x ∷ s.comments })

-- The user whom a task is assigned to is there.
abbrev pub is_assignable : CaseStore → Option ℕ → Bool
is_assignable s none = true
is_assignable s (some user) = any (λ u. u == user) s.users

-- The texts of a task fit their columns.
abbrev pub task_fits : CaseTask → Bool
task_fits x = fits 255 x.title && fits_optional 2000 x.description

unfoldable pub insert_task : CaseTask → CaseStore → Result CaseStore
insert_task x s = do
  raise_if (not (task_fits x)) data_error
  raise_if (any (λ y. y.id == x.id) s.tasks) integrity_error
  raise_if (not (has_case s x.organization_id x.case_id)) integrity_error
  raise_if (not (is_assignable s x.assigned_to_user_id)) integrity_error
  ok (record s { tasks = x ∷ s.tasks })

-- The condition of the `UPDATE` of a task, and the columns that it sets
abbrev pub is_task_target : CaseTask → CaseTask → Bool
is_task_target x row =
    is_task x.organization_id x.case_id x.id row && row.lock_version + 1 == x.lock_version

abbrev pub task_written : CaseTask → CaseTask → CaseTask
task_written x row = record row {
  title = x.title;
  description = x.description;
  status = x.status;
  assigned_to_user_id = x.assigned_to_user_id;
  due_at = x.due_at;
  completed_at = x.completed_at;
  completed_by_user_id = x.completed_by_user_id;
  updated_at = x.updated_at;
  updated_by_user_id = x.updated_by_user_id;
  lock_version = x.lock_version;
}

unfoldable pub set_task : CaseTask → CaseStore → Result CaseStore
set_task x s = do
  let hit = any (is_task_target x) s.tasks
  raise_if (hit && not (task_fits x)) data_error
  raise_if (hit && not (is_assignable s x.assigned_to_user_id)) integrity_error
  ok (record s { tasks = replace_where (is_task_target x) (task_written x) s.tasks })

unfoldable pub insert_decision : CaseDecision → CaseStore → Result CaseStore
insert_decision x s = do
  raise_if (not (fits 255 x.decision_type && fits 4000 x.rationale)) data_error
  raise_if (any (λ y. y.id == x.id) s.decisions) integrity_error
  raise_if (not (has_case s x.organization_id x.case_id)) integrity_error
  ok (record s { decisions = x ∷ s.decisions })

unfoldable pub append_case_event : AuditEvent → CaseStore → Result CaseStore
append_case_event event s = do events ← append event s.events; ok (record s { events = events })
