-- ===== src/Cases/Case/History.antt =====
-- Sequences of changes of one case.
use workflow_forge.Cases.Case.Laws.{
  WellFormed, Change, apply, apply-Changed, next_status, is_allowed, updating, closing, reopening,
  archiving,
}
use workflow_forge.Cases.Case.{Case, is_archived, CaseStatus}
use workflow_forge.Base.{
  Bool, ◌≡◌, List, Result, true, ok, all, arith, ◌+◌, ◌∷◌, false, length, ◌>>=◌, [], ok-transport,
  >>=-eq-ok, ◌∙◌, ap, refl,
}

-- The case after one change after the other.
abbrev pub apply_all : List Change → Case → Result Case
apply_all [] x = ok x
apply_all (c ∷ cs) x = apply c x >>= apply_all cs

-- The change archives.
abbrev pub is_archiving : Change → Bool
is_archiving (archiving _ _) = true
is_archiving _ = false

abbrev pub all_archiving : List Change → Bool
all_archiving = all is_archiving

stays_archived :
    (c : Change) (s : CaseStatus)
    → is_allowed c s ≡ true
    → is_archived s ≡ true
    → (is_archived (next_status c s) ≡ true) × (is_archiving c ≡ true)
stays_archived (updating _ _ _ _ _ _) s a h = ground arith
stays_archived (closing _ _) s a h = ground arith
stays_archived (reopening _ _) s a h = ground arith
stays_archived (archiving _ _) s a h = ground arith

-- Changes that all return count up the version by one each, and leave a validated case; if the case
-- was archived before them, then it still is, and each of them was an archiving.
pub case_history :
    (cs : List Change) (x y : Case)
    → WellFormed x
    → apply_all cs x ≡ ok y
    → WellFormed y
      × (y.id ≡ x.id)
      × (y.organization_id ≡ x.organization_id)
      × (y.lock_version ≡ x.lock_version + length cs)
      × (is_archived x.status ≡ true → (is_archived y.status ≡ true) × (all_archiving cs ≡ true))
case_history [] x y formed h =
    ok-transport
      (λ y.
        WellFormed y
        × (y.id ≡ x.id)
        × (y.organization_id ≡ x.organization_id)
        × (y.lock_version ≡ x.lock_version + 0)
        × (is_archived x.status ≡ true → (is_archived y.status ≡ true) × (true ≡ true)))
      h (formed, refl, refl, omega arith, λ a. (a, refl))
case_history (c ∷ cs) x y formed h =
    let (z, first, h) = >>=-eq-ok (apply c x) _ h in
    let step = apply-Changed c x z first in
    let (good, id, organization, version, final) = case_history cs z y step.formed h in
    let next = step.version in
    (
      good,
      id ∙ step.same_id,
      organization ∙ step.same_organization,
      omega arith,
      λ a.
          let (still, archives) = stays_archived c x.status step.allowed a in
          let (last, rest) = final (ap is_archived step.status ∙ still) in (last, ground arith),
    )
