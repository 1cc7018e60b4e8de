-- ===== src/Examples/CaseWork.antt =====
-- A case with a task that two callers change from the same version.
use workflow_forge.Audit
use workflow_forge.Cases.Case
use workflow_forge.Cases.Case.{Case, CasePriority}
use workflow_forge.Cases.Task
use workflow_forge.Cases.Task.{CaseTask, CaseTaskStatus}
use workflow_forge.Cases.Case.Laws.{Change, WellFormed}
use workflow_forge.Cases.Case.History.{apply_all, case_history, all_archiving}
use workflow_forge.Cases.Service
use workflow_forge.Cases.Service.Versions
use workflow_forge.Cases.Service.Versions.{
  CaseCall, CaseVersioned, update_call, close_call, reopen_call, archive_call,
}
use workflow_forge.Cases.Service.TaskVersions
use workflow_forge.Cases.Service.TaskVersions.{TaskCall, TaskVersioned, complete_call}
use workflow_forge.Cases.Service.NoLostUpdate.{
  CaseRequest, case_no_lost_update, task_no_lost_update, perform_requests, comment_request,
  change_case,
}
use workflow_forge.Cases.Service.Tenancy.{SameOutside, case_isolation}
use workflow_forge.Cases.Service.Links.{Linked, case_links}
use workflow_forge.Cases.Service.{
  CaseDraw, create_case, add_document, remove_document, create_comment, create_decision,
  create_task, record_case_if, locked_case, locked_task, store_case, store_task,
}
use workflow_forge.Cases.Store.{
  CaseStore, case_from_record, append_case_event, set_case, set_task, task_from_record,
}
use workflow_forge.Cases.Listing.{
  CaseListFilter, CaseListPage, list_cases, Listed, case_listing, selected_cases, is_selected,
}
use workflow_forge.Examples.Batching.{tenant, colleague}
use workflow_forge.Transaction.{run, lift, gets, change, commit, pure}
use workflow_forge.Time.{utc, normalize, normalize_optional}
use workflow_forge.Text.{Text, squeeze, join, split, is_space, lstrip, rstrip, split_from, strip}
use workflow_forge.Base.{arith, none, true, ◌≡◌, some, ◌+◌, ◌∷◌, false, refl, ok, [], is_ok, List}
use workflow_forge.Authorization.Policy.{require, allows}
use workflow_forge.Identity.Roles.{contains, permissions_for_role, ordinal}
use workflow_forge.Cases.Repository.{get_case, get_case_task, update_case, update_case_task}
use workflow_forge.Rows.{every, first, replace_where}
use workflow_forge.Rows.Paging.{page, order_by, insert_by}
use workflow_forge.Audit.{append}
use workflow_forge.Authorization.Context.{TenantContext}

abbrev draw : CaseDraw
draw = record { now = 150; uuid = λ k. k + 30; audited = true }

-- `ana`
abbrev name : Text
name = 97 ∷ 110 ∷ 97 ∷ []

abbrev opened : Case
opened = record {
  id = 5;
  organization_id = 7;
  title = name;
  summary = none;
  status = Case.CaseStatus.open_;
  priority = Case.CasePriority.normal;
  external_reference = none;
  created_at = utc 100;
  created_by_user_id = 11;
  updated_at = utc 100;
  updated_by_user_id = 11;
  closed_at = none;
  closed_by_user_id = none;
  archived_at = none;
  archived_by_user_id = none;
  lock_version = 1;
}

abbrev archived_case : Case
archived_case = record opened {
  status = Case.CaseStatus.archived;
  archived_at = some (utc 150);
  archived_by_user_id = some 11;
  updated_at = utc 150;
  lock_version = 2;
}

abbrev closed_case : Case
closed_case = record opened {
  status = Case.CaseStatus.closed;
  closed_at = some (utc 150);
  closed_by_user_id = some 11;
  updated_at = utc 150;
  lock_version = 2;
}

abbrev task : CaseTask
task = record {
  id = 6;
  organization_id = 7;
  case_id = 5;
  title = name;
  description = none;
  status = CaseTaskStatus.open_;
  assigned_to_user_id = none;
  due_at = none;
  completed_at = none;
  completed_by_user_id = none;
  created_at = utc 100;
  created_by_user_id = 11;
  updated_at = utc 100;
  updated_by_user_id = 11;
  lock_version = 1;
}

abbrev done_task : CaseTask
done_task = record task {
  status = CaseTaskStatus.completed;
  completed_at = some (utc 150);
  completed_by_user_id = some 11;
  updated_at = utc 150;
  lock_version = 2;
}

abbrev case_store : CaseStore
case_store = record {
  cases = opened ∷ [];
  memberships = [];
  comments = [];
  tasks = task ∷ [];
  decisions = [];
  documents = (7, 9) ∷ [];
  users = 11 ∷ [];
  events = [];
}

close_returns : (run (Versions.perform close_call draw tenant 5 1) case_store).0 ≡ ok closed_case
unfolding run lift require allows contains permissions_for_role get_case gets first case_from_record
    append Audit.create record_case_if append_case_event ordinal replace_where change commit pure
    Case.post_init Case.required_text squeeze join split Case.optional_text is_space lstrip rstrip
    split_from strip normalize normalize_optional Service.close locked_case Case.close
    Case.ensure_mutable update_case store_case set_case
close_returns = refl

-- A colleague writes a comment and reopens the case, and archives it at the version of before.
abbrev later_requests : List (CaseDraw × TenantContext × CaseRequest)
later_requests =
    (draw, colleague, comment_request 5 name) ∷ (draw, colleague, change_case reopen_call 5 2) ∷ []

case_no_lost_update_example :
    CaseVersioned close_call tenant 5 1 case_store
      (run (Versions.perform close_call draw tenant 5 1) case_store).1
      closed_case
      150
    × (is_ok
          (run (Versions.perform archive_call draw colleague 5 1) (
            perform_requests later_requests
              (run (Versions.perform close_call draw tenant 5 1) case_store).1)).0
        ≡ false)
case_no_lost_update_example =
    case_no_lost_update close_call archive_call draw draw tenant colleague 5 1 later_requests
      case_store closed_case close_returns refl

complete_returns :
    (run (TaskVersions.perform complete_call draw tenant 5 6 1) case_store).0 ≡ ok done_task
unfolding run lift require allows contains permissions_for_role get_case gets first case_from_record
    append Audit.create record_case_if append_case_event ordinal replace_where change commit pure
    Case.post_init Case.required_text squeeze join split Case.optional_text is_space lstrip rstrip
    split_from strip normalize normalize_optional Service.complete_task Service.get locked_task
    get_case_task update_case_task store_task set_task task_from_record Task.complete
complete_returns = refl

task_no_lost_update_example :
    TaskVersioned complete_call tenant 5 6 1 case_store
      (run (TaskVersions.perform complete_call draw tenant 5 6 1) case_store).1
      done_task
    × (is_ok
          (run (TaskVersions.perform complete_call draw colleague 5 6 1) (
            perform_requests later_requests
              (run (TaskVersions.perform complete_call draw tenant 5 6 1) case_store).1)).0
        ≡ false)
task_no_lost_update_example =
    task_no_lost_update complete_call complete_call draw draw tenant colleague 5 6 1 later_requests
      case_store done_task complete_returns refl

case_isolation_example :
    ((c : CaseCall)
      → SameOutside 7 case_store (run (Versions.perform c draw tenant 5 1) case_store).1)
    × ((c : TaskCall)
        → SameOutside 7 case_store (run (TaskVersions.perform c draw tenant 5 6 1) case_store).1)
    × SameOutside 7 case_store
        (run (create_case draw tenant name none Case.CasePriority.low none) case_store).1
    × SameOutside 7 case_store (run (add_document draw tenant 5 9) case_store).1
    × SameOutside 7 case_store (run (remove_document draw tenant 5 9) case_store).1
    × SameOutside 7 case_store (run (create_comment draw tenant 5 name) case_store).1
    × SameOutside 7 case_store (run (create_decision draw tenant 5 name name) case_store).1
    × SameOutside 7 case_store (run (create_task draw tenant 5 name none none none) case_store).1
case_isolation_example =
    case_isolation draw tenant case_store 5 6 1 9 name name none none Case.CasePriority.low none
      none

linked : Linked case_store
linked = record { memberships = tt; known = tt; comments = tt; tasks = (refl, tt); decisions = tt }

case_links_example :
    ((c : CaseCall) → Linked (run (Versions.perform c draw tenant 5 1) case_store).1)
    × ((c : TaskCall) → Linked (run (TaskVersions.perform c draw tenant 5 6 1) case_store).1)
    × Linked (run (create_case draw tenant name none Case.CasePriority.low none) case_store).1
    × Linked (run (add_document draw tenant 5 9) case_store).1
    × Linked (run (remove_document draw tenant 5 9) case_store).1
    × Linked (run (create_comment draw tenant 5 name) case_store).1
    × Linked (run (create_decision draw tenant 5 name name) case_store).1
    × Linked (run (create_task draw tenant 5 name none none none) case_store).1
case_links_example =
    case_links draw tenant case_store 5 6 1 9 name name none none Case.CasePriority.low none none
      linked

formed : WellFormed opened
unfolding squeeze join split split_from strip rstrip lstrip is_space
formed = record {
  organization_set = omega arith;
  title_bounded = (refl, refl, omega arith);
  summary_bounded = tt;
  reference_bounded = tt;
  created_utc = refl;
  updated_utc = refl;
  closed_utc = tt;
  archived_utc = tt;
  versioned = omega arith;
}

history_returns :
    apply_all (Change.archiving 11 (utc 150) ∷ Change.archiving 11 (utc 150) ∷ []) opened
    ≡ ok (record archived_case { lock_version = 3 })
unfolding Case.post_init Case.required_text squeeze join split Case.optional_text is_space lstrip
    rstrip split_from strip normalize normalize_optional Case.archive
history_returns = refl

case_history_example :
    WellFormed (record archived_case { lock_version = 3 })
    × (5 ≡ opened.id)
    × (7 ≡ opened.organization_id)
    × (3 ≡ opened.lock_version + 2)
    × (Case.is_archived opened.status ≡ true
        → (Case.is_archived archived_case.status ≡ true)
          × (all_archiving (Change.archiving 11 (utc 150) ∷ Change.archiving 11 (utc 150) ∷ [])
              ≡ true))
case_history_example =
    case_history (Change.archiving 11 (utc 150) ∷ Change.archiving 11 (utc 150) ∷ []) opened
      (record archived_case { lock_version = 3 }) formed history_returns

abbrev query : CaseListFilter
query = record {
  limit = 25;
  offset = 0;
  status = none;
  priority = none;
  archived = some false;
  title = none;
}

abbrev listed_page : CaseListPage
listed_page = record { items = opened ∷ []; total = 1; limit = 25; offset = 0 }

list_returns : list_cases (λ s t. true) tenant query case_store ≡ ok listed_page
unfolding list_cases selected_cases require allows contains permissions_for_role ordinal every
    is_selected page order_by insert_by case_from_record Case.post_init Case.required_text squeeze
    join split Case.optional_text is_space lstrip rstrip split_from strip normalize
    normalize_optional
list_returns = refl

case_listing_example : Listed (λ s t. true) 7 query case_store listed_page
case_listing_example = case_listing (λ s t. true) tenant query case_store listed_page list_returns
