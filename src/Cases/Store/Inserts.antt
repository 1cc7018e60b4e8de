-- ===== src/Cases/Store/Inserts.antt =====
-- What an insertion that the constraints let pass has stored.
use workflow_forge.Cases.Case.{CaseComment, CaseDecision}
use workflow_forge.Cases.Task.{CaseTask}
use workflow_forge.Cases.Store.{
  CaseStore, insert_comment, insert_task, insert_decision, fits, has_case, task_fits, is_assignable,
}
use workflow_forge.Base.{
  Bool, ◌≡◌, Error, ok, raise_if, ◌∷◌, not, true, >>=-eq-ok, false, any, refl, ◌&&◌, ◌==◌,
  raise_if-eq-ok,
}

holds : (b : Bool) (e : Error) {u : Unit {0}} → raise_if (not b) e ≡ ok u → b ≡ true
holds true e h = refl
holds false e h = cc

pub insert_comment-eq-ok :
    (x : CaseComment) (s s' : CaseStore)
    → insert_comment x s ≡ ok s'
    → (ok (record s { comments = x ∷ s.comments }) ≡ ok s')
      × (has_case s x.organization_id x.case_id ≡ true)
unfolding insert_comment
insert_comment-eq-ok x s s' h =
    let (_, _, h) = >>=-eq-ok (raise_if (not (fits 4000 x.body)) _) _ h in
    let (_, _, h) = >>=-eq-ok (raise_if (any (λ y. y.id == x.id) s.comments) _) _ h in
    let (_, linked, h) =
      >>=-eq-ok (raise_if (not (has_case s x.organization_id x.case_id)) _) _ h in
    (h, holds (has_case s x.organization_id x.case_id) _ linked)

pub insert_task-eq-ok :
    (x : CaseTask) (s s' : CaseStore)
    → insert_task x s ≡ ok s'
    → (ok (record s { tasks = x ∷ s.tasks }) ≡ ok s')
      × (has_case s x.organization_id x.case_id ≡ true)
unfolding insert_task
insert_task-eq-ok x s s' h =
    let (_, _, h) = >>=-eq-ok (raise_if (not (task_fits x)) _) _ h in
    let (_, _, h) = >>=-eq-ok (raise_if (any (λ y. y.id == x.id) s.tasks) _) _ h in
    let (_, linked, h) =
      >>=-eq-ok (raise_if (not (has_case s x.organization_id x.case_id)) _) _ h in
    let (_, _, h) = >>=-eq-ok (raise_if (not (is_assignable s x.assigned_to_user_id)) _) _ h in
    (h, holds (has_case s x.organization_id x.case_id) _ linked)

pub insert_decision-eq-ok :
    (x : CaseDecision) (s s' : CaseStore)
    → insert_decision x s ≡ ok s'
    → (ok (record s { decisions = x ∷ s.decisions }) ≡ ok s')
      × (has_case s x.organization_id x.case_id ≡ true)
unfolding insert_decision
insert_decision-eq-ok x s s' h =
    let (_, _, h) =
      >>=-eq-ok (raise_if (not (fits 255 x.decision_type && fits 4000 x.rationale)) _) _ h in
    let (_, _, h) = >>=-eq-ok (raise_if (any (λ y. y.id == x.id) s.decisions) _) _ h in
    let (_, linked, h) =
      >>=-eq-ok (raise_if (not (has_case s x.organization_id x.case_id)) _) _ h in
    (h, holds (has_case s x.organization_id x.case_id) _ linked)

pub insert_task-fresh :
    (x : CaseTask) (s s' : CaseStore)
    → insert_task x s ≡ ok s'
    → any (λ y. y.id == x.id) s.tasks ≡ false
unfolding insert_task
insert_task-fresh x s s' h =
    let (_, _, h) = >>=-eq-ok (raise_if (not (task_fits x)) _) _ h in
    let (_, fresh, h) = >>=-eq-ok (raise_if (any (λ y. y.id == x.id) s.tasks) _) _ h in
    raise_if-eq-ok (any (λ y. y.id == x.id) s.tasks) _ fresh
