-- ===== src/Cases/Service/NoLostUpdate.antt =====
-- Optimistic locking of cases and tasks over sequences of calls by all users.
use workflow_forge.Cases.Service.TaskVersions
use workflow_forge.Cases.Service.TaskVersions.{TaskCall, TaskVersioned, task_versions}
use workflow_forge.Cases.Service.Versions.{CaseCall, perform, CaseVersioned, case_versions}
use workflow_forge.Cases.Service.LaterVersions.{IsLater, IsLater-IsPreorder, Statements-IsLater}
use workflow_forge.Base.{
  List, ℕ, Option, ◌∷◌, ◌≡◌, [], ok, is_ok, false, some-injective, sym, ◌∙◌, ap, arith,
}
use workflow_forge.Cases.Service.{
  CaseDraw, create_case, add_document, remove_document, create_comment, create_decision,
  create_task,
}
use workflow_forge.Text.{Text}
use workflow_forge.Authorization.Context.{TenantContext}
use workflow_forge.Cases.Store.{CaseStore, is_task, is_case}
use workflow_forge.Cases.Task.{CaseTask}
use workflow_forge.Cases.Case.{CasePriority, Case}
use workflow_forge.Transaction.Growth.{run-Grows}
use workflow_forge.Transaction.{run}
use workflow_forge.Time.{DateTime}
use workflow_forge.Cases.Service.Effects.{
  Grows-perform, Grows-perform_task, Grows-create_case, Grows-add_document, Grows-remove_document,
  Grows-create_comment, Grows-create_decision, Grows-create_task,
}
use workflow_forge.Batches.Service.Versions.{refused_run}
use workflow_forge.Rows.{first}

-- A call of the service that may change the tables
pub data CaseRequest : Type 0 where
  change_case : CaseCall → (case_id lock_version : ℕ) → CaseRequest
  change_task : TaskCall → (case_id task_id lock_version : ℕ) → CaseRequest
  create_case_request : Text → Option Text → CasePriority → Option Text → CaseRequest
  add_document_request remove_document_request : (case_id document_id : ℕ) → CaseRequest
  comment_request : (case_id : ℕ) → Text → CaseRequest
  decision_request : (case_id : ℕ) → (decision_type rationale : Text) → CaseRequest
  task_request : (case_id : ℕ) → Text → Option Text → Option ℕ → Option DateTime → CaseRequest

-- The tables after a request by a tenant
unfoldable pub perform_request : CaseDraw → TenantContext → CaseRequest → CaseStore → CaseStore
perform_request draw tenant (change_case c i v) s = (run (perform c draw tenant i v) s).1
perform_request draw tenant (change_task c i t v) s =
    (run (TaskVersions.perform c draw tenant i t v) s).1
perform_request draw tenant (create_case_request t u p r) s =
    (run (create_case draw tenant t u p r) s).1
perform_request draw tenant (add_document_request i d) s = (run (add_document draw tenant i d) s).1
perform_request draw tenant (remove_document_request i d) s =
    (run (remove_document draw tenant i d) s).1
perform_request draw tenant (comment_request i b) s = (run (create_comment draw tenant i b) s).1
perform_request draw tenant (decision_request i k w) s =
    (run (create_decision draw tenant i k w) s).1
perform_request draw tenant (task_request i t d u e) s =
    (run (create_task draw tenant i t d u e) s).1

-- Requests one after the other, each with its tenant and what it draws
unfoldable pub perform_requests :
    List (CaseDraw × TenantContext × CaseRequest) → CaseStore → CaseStore
perform_requests [] s = s
perform_requests (r ∷ rs) s =
    let (draw, tenant, request) = r in perform_requests rs (perform_request draw tenant request s)

perform_request-IsLater :
    (draw : CaseDraw) (tenant : TenantContext) (r : CaseRequest) (s : CaseStore)
    → IsLater s (perform_request draw tenant r s)
unfolding perform_request
perform_request-IsLater draw tenant (change_case c i v) s =
    run-Grows IsLater-IsPreorder _ s
      (Grows-perform IsLater draw tenant (Statements-IsLater tenant.organization_id) c i v)
perform_request-IsLater draw tenant (change_task c i t v) s =
    run-Grows IsLater-IsPreorder _ s
      (Grows-perform_task IsLater draw tenant (Statements-IsLater tenant.organization_id) c i t v)
perform_request-IsLater draw tenant (create_case_request t u p r) s =
    run-Grows IsLater-IsPreorder _ s
      (Grows-create_case IsLater draw tenant (Statements-IsLater tenant.organization_id) t u p r)
perform_request-IsLater draw tenant (add_document_request i d) s =
    run-Grows IsLater-IsPreorder _ s
      (Grows-add_document IsLater draw tenant (Statements-IsLater tenant.organization_id) i d)
perform_request-IsLater draw tenant (remove_document_request i d) s =
    run-Grows IsLater-IsPreorder _ s
      (Grows-remove_document IsLater draw tenant (Statements-IsLater tenant.organization_id) i d)
perform_request-IsLater draw tenant (comment_request i b) s =
    run-Grows IsLater-IsPreorder _ s
      (Grows-create_comment IsLater draw tenant (Statements-IsLater tenant.organization_id) i b)
perform_request-IsLater draw tenant (decision_request i k w) s =
    run-Grows IsLater-IsPreorder _ s
      (Grows-create_decision IsLater draw tenant (Statements-IsLater tenant.organization_id) i k w)
perform_request-IsLater draw tenant (task_request i t d u e) s =
    run-Grows IsLater-IsPreorder _ s
      (Grows-create_task IsLater draw tenant (Statements-IsLater tenant.organization_id) i t d u e)

perform_requests-IsLater :
    (rs : List (CaseDraw × TenantContext × CaseRequest)) (s : CaseStore)
    → IsLater s (perform_requests rs s)
unfolding perform_requests
perform_requests-IsLater [] s = IsLater-IsPreorder.reflexive s
perform_requests-IsLater (r ∷ rs) s =
    IsLater-IsPreorder.transitive (perform_request-IsLater r.0 r.1 r.2 s)
      (perform_requests-IsLater rs (perform_request r.0 r.1 r.2 s))

-- No change of a case is lost: an update, a closing, a reopening or an archiving that returns has
-- found the tenant's case at the version that it was called with and in a status that allows the
-- change, and it stores what it returns, a validated case of the next version in the status that the
-- change leads to; and after it and any further requests, of whatever tenants and whether they
-- return or raise, every change of the same case that names the same version raises, whichever of
-- the four changes the two are and whoever of the organization calls.
pub case_no_lost_update :
    (c c' : CaseCall) (draw again : CaseDraw) (tenant other : TenantContext) (i v : ℕ)
    (rs : List (CaseDraw × TenantContext × CaseRequest)) (s : CaseStore) (y : Case)
    → (run (perform c draw tenant i v) s).0 ≡ ok y
    → other.organization_id ≡ tenant.organization_id
    → CaseVersioned c tenant i v s (run (perform c draw tenant i v) s).1 y draw.now
      × (is_ok
            (run
              (perform c' again other i v)
              (perform_requests rs (run (perform c draw tenant i v) s).1)).0
          ≡ false)
case_no_lost_update c c' draw again tenant other i v rs s y h same =
    let s' = (run (perform c draw tenant i v) s).1 in
    let s'' = perform_requests rs s' in
    let one = case_versions c draw tenant i v s y h in
    let (x, x_found, up) =
      (perform_requests-IsLater rs s').cases tenant.organization_id i _ one.stored in
    (
      one,
      refused_run (run (perform c' again other i v) s'').0 λ z k.
          let two = case_versions c' again other i v s'' z k in
          let row =
            some-injective
              (sym x_found ∙ ap (λ o. first (is_case o i) s''.cases) (sym same) ∙ two.found) in
          let version = ap (λ w. w.lock_version) row ∙ two.current in
          let next = one.next in absurd (omega (arith, version, next, up)),
    )

-- No change of a task is lost: an update or a completion that returns has found the task of the case
-- at the version that it was called with, and it stores what it returns, at the next version; and
-- after it and any further requests, of whatever tenants and whether they return or raise, every
-- update or completion of the same task that names the same version raises, whoever of the
-- organization calls.
pub task_no_lost_update :
    (c c' : TaskCall) (draw again : CaseDraw) (tenant other : TenantContext) (i t v : ℕ)
    (rs : List (CaseDraw × TenantContext × CaseRequest)) (s : CaseStore) (y : CaseTask)
    → (run (TaskVersions.perform c draw tenant i t v) s).0 ≡ ok y
    → other.organization_id ≡ tenant.organization_id
    → TaskVersioned c tenant i t v s (run (TaskVersions.perform c draw tenant i t v) s).1 y
      × (is_ok
            (run
              (TaskVersions.perform c' again other i t v)
              (perform_requests rs (run (TaskVersions.perform c draw tenant i t v) s).1)).0
          ≡ false)
task_no_lost_update c c' draw again tenant other i t v rs s y h same =
    let s' = (run (TaskVersions.perform c draw tenant i t v) s).1 in
    let s'' = perform_requests rs s' in
    let one = task_versions c draw tenant i t v s y h in
    let (x, x_found, up) =
      (perform_requests-IsLater rs s').tasks tenant.organization_id i t _ one.stored in
    (
      one,
      refused_run (run (TaskVersions.perform c' again other i t v) s'').0 λ z k.
          let two = task_versions c' again other i t v s'' z k in
          let row =
            some-injective
              (sym x_found ∙ ap (λ o. first (is_task o i t) s''.tasks) (sym same) ∙ two.found) in
          let version = ap (λ w. w.lock_version) row ∙ two.current in
          let next = one.next in absurd (omega (arith, version, next, up)),
    )
