-- ===== src/Cases/Task.antt =====
-- `CaseTask` of packages/domain/src/workflowforge_domain/cases.py. Neither method looks at the status.
use workflow_forge.Cases.Case.{timestamp, given}
use workflow_forge.Base.{ℕ, Option, Result, ◌>>=◌, ok, some, ◌+◌}
use workflow_forge.Text.{Text}
use workflow_forge.Time.{DateTime}

pub data CaseTaskStatus : Type 0 where
  open_ completed cancelled : CaseTaskStatus

pub record CaseTask : Type 0 where
  pub id : ℕ
  pub organization_id : ℕ
  pub case_id : ℕ
  pub title : Text
  pub description : Option Text
  pub status : CaseTaskStatus
  pub assigned_to_user_id : Option ℕ
  pub due_at : Option DateTime
  pub completed_at : Option DateTime
  pub completed_by_user_id : Option ℕ
  pub created_at : DateTime
  pub created_by_user_id : ℕ
  pub updated_at : DateTime
  pub updated_by_user_id : ℕ
  pub lock_version : ℕ

unfoldable pub update :
    CaseTask
    → (title description : Option Text) → (assigned_to_user_id : Option ℕ)
    → (due_at : Option DateTime) → (actor_user_id : ℕ) → (now : DateTime) → Result CaseTask
update x title description assigned_to_user_id due_at actor_user_id now = do
  at ← timestamp now
  ok (record x {
    title = given title x.title;
    description = description;
    assigned_to_user_id = assigned_to_user_id;
    due_at = due_at;
    updated_at = at;
    updated_by_user_id = actor_user_id;
    lock_version = x.lock_version + 1;
  })

unfoldable pub complete : CaseTask → (actor_user_id : ℕ) → (now : DateTime) → Result CaseTask
complete x actor_user_id now = do
  at ← timestamp now
  ok (record x {
    status = completed;
    completed_at = some at;
    completed_by_user_id = some actor_user_id;
    updated_at = at;
    updated_by_user_id = actor_user_id;
    lock_version = x.lock_version + 1;
  })
