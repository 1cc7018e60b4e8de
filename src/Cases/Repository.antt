-- ===== src/Cases/Repository.antt =====
-- `SqlAlchemyCaseRepository` of packages/infrastructure/src/workflowforge_infrastructure/cases.py as
-- statements of a use case.
use workflow_forge.Cases.Case.{Case, CaseDocument, CaseComment, CaseDecision}
use workflow_forge.Cases.Task.{CaseTask}
use mathlib.Core.Option
use workflow_forge.Base.{
  ℕ, Bool, Option, List, map, any, if◌then◌else◌, ◌==◌, ◌&&◌, read_optional, or_raise, read_all,
  document_not_found,
}
use workflow_forge.Transaction.{Action, ◌>>=◌, ◌>>◌, gets, change, lift, pure, rollback}
use workflow_forge.Cases.Store.{
  CaseStore, insert_comment, membership_violation, insert_case, insert_task, set_task, set_case,
  insert_decision, comment_from_record, is_case, decision_from_record, task_from_record, is_member,
  delete_case_document, case_from_record, case_document_from_record, insert_case_document, is_task,
}
use workflow_forge.Rows.{first, every}

-- `get` and `get_for_update`, which selects the same row and locks it
unfoldable pub get_case : (organization_id case_id : ℕ) → Action CaseStore (Option Case)
get_case o i = do
  row ← gets (λ s. first (is_case o i) s.cases)
  lift (read_optional case_from_record row)

unfoldable pub add_case : Case → Action CaseStore Case
add_case x = do change (insert_case x); lift (case_from_record x)

-- `update` and `update_task`: how many rows are hit is not looked at
unfoldable pub update_case : Case → Action CaseStore Case
update_case x = do change (set_case x); pure x

unfoldable pub update_case_task : CaseTask → Action CaseStore CaseTask
update_case_task x = do change (set_task x); pure x

-- `add_document`: a membership that is there already is returned as it is
unfoldable pub add_case_document : CaseDocument → Action CaseStore CaseDocument
add_case_document x = do
  violated ← gets (λ s. membership_violation s x)
  (if violated
      then (do
        rollback
        existing ←
            gets (λ s. first (is_member x.organization_id x.case_id x.document_id) s.memberships)
        row ← lift (or_raise existing document_not_found)
        lift (case_document_from_record row))
      else (do change (insert_case_document x); lift (case_document_from_record x)))

-- `remove_document`, which returns whether a row was deleted
unfoldable pub remove_case_document :
    (organization_id case_id document_id : ℕ) → Action CaseStore Bool
remove_case_document o i d = do
  found ← gets (λ s. any (is_member o i d) s.memberships)
  change (delete_case_document o i d)
  pure found

unfoldable pub add_comment : CaseComment → Action CaseStore CaseComment
add_comment x = do change (insert_comment x); pure (comment_from_record x)

unfoldable pub add_task : CaseTask → Action CaseStore CaseTask
add_task x = do change (insert_task x); pure (task_from_record x)

-- `get_task_for_update`
unfoldable pub get_case_task :
    (organization_id case_id task_id : ℕ) → Action CaseStore (Option CaseTask)
get_case_task o i t = gets (λ s. Option.map task_from_record (first (is_task o i t) s.tasks))

unfoldable pub add_decision : CaseDecision → Action CaseStore CaseDecision
add_decision x = do change (insert_decision x); pure (decision_from_record x)

-- `list_documents`, `list_comments`, `list_tasks` and `list_decisions`, in the order of the table
unfoldable pub list_documents : (organization_id case_id : ℕ) → Action CaseStore (List CaseDocument)
list_documents o i = do
  rows ← gets (λ s. every (λ x. x.organization_id == o && x.case_id == i) s.memberships)
  lift (read_all case_document_from_record rows)

unfoldable pub list_comments : (organization_id case_id : ℕ) → Action CaseStore (List CaseComment)
list_comments o i = gets (λ s.
    map comment_from_record (every (λ x. x.organization_id == o && x.case_id == i) s.comments))

unfoldable pub list_tasks : (organization_id case_id : ℕ) → Action CaseStore (List CaseTask)
list_tasks o i =
    gets (λ s. map task_from_record (every (λ x. x.organization_id == o && x.case_id == i) s.tasks))

unfoldable pub list_decisions : (organization_id case_id : ℕ) → Action CaseStore (List CaseDecision)
list_decisions o i = gets (λ s.
    map decision_from_record (every (λ x. x.organization_id == o && x.case_id == i) s.decisions))
