-- ===== src/Identity/Membership/Steps.antt =====
-- The life cycle that the methods of `Membership` walk.
use workflow_forge.Base.{
  ◌≡◌, true, arith, ok, Result-cases, inl, inr, is_some, ◌⊎◌, ◌≢◌, Bool-cases, subst, sym,
}
use workflow_forge.Time.{DateTime}
use workflow_forge.Identity.Membership.{
  Membership, invited, active, suspended, removed, mutation_timestamp, MembershipStatus,
}
use workflow_forge.Identity.Membership.Lifecycle.{WellFormed}
use workflow_forge.Identity.Membership.Changes.{
  Change, apply, acts, expected, time, apply-eq-expected, changed, changed-WellFormed, idles,
  mutation_timestamp-eq-ok, activation, suspension, reactivation, removal, role_change,
}

removed_acts_not : (c : Change) (m : Membership) → m.status ≡ removed → acts c m ≢ true
removed_acts_not (activation _) m r = ground arith
removed_acts_not _ m r = ground arith

-- The edges of the life of a membership.
pub data Transition : MembershipStatus → MembershipStatus → Type 0 where
  stay : (s : MembershipStatus) → Transition s s
  join : Transition invited active
  pause : Transition active suspended
  resume : Transition suspended active
  leave : (s : MembershipStatus) → Transition s removed

-- What a change keeps of the membership `m`.
pub record Keeps (m m' : Membership) : Type 0 where
  pub id_kept : m'.id ≡ m.id
  pub user_kept : m'.user_id ≡ m.user_id
  pub organization_kept : m'.organization_id ≡ m.organization_id
  pub created_kept : m'.created_at ≡ m.created_at
  pub invited_kept : m'.invited_at ≡ m.invited_at
  pub joined_kept : is_some m.joined_at ≡ true → m'.joined_at ≡ m.joined_at

-- An accepted change idles, or acts at a good time.
expected-eq-ok :
    (c : Change) (m m' : Membership)
    → expected c m ≡ ok m'
    → (m' ≡ m)
      ⊎ ((t : DateTime) × (acts c m ≡ true)
          × (mutation_timestamp m (time c) ≡ ok t)
          × (m' ≡ changed c m t))
expected-eq-ok c m m' e = elim (Bool-cases (idles c m)) [
  | inl i ↦ inl (ground arith)
  | inr i ↦ elim (Bool-cases (acts c m)) [
    | inr a ↦ ground arith
    | inl a ↦ elim (Result-cases (mutation_timestamp m (time c))) [
      | inl (t, f) ↦ inr (t, a, f, ground arith)
      | inr (x, f) ↦ ground arith
    ]
  ]
]

acts-Transition :
    (c : Change) (m : Membership) (t : DateTime)
    → acts c m ≡ true
    → Transition m.status (changed c m t).status
acts-Transition (activation _) m t a = grind (arith, join)
acts-Transition (suspension _) m t a = grind (arith, pause)
acts-Transition (reactivation _) m t a = grind (arith, resume)
acts-Transition (removal _) m t a = leave m.status
acts-Transition (role_change _ _) m t a = stay m.status

acts-Keeps :
    (c : Change) (m : Membership) (t : DateTime)
    → WellFormed m
    → acts c m ≡ true
    → Keeps m (changed c m t)
acts-Keeps (activation _) m t h a = ground arith
acts-Keeps (suspension _) m t h a = ground arith
acts-Keeps (reactivation _) m t h a = ground arith
acts-Keeps (removal _) m t h a = ground arith
acts-Keeps (role_change _ _) m t h a = ground arith

abbrev pub IsStep : Membership → Membership → Type 0
IsStep m m' = WellFormed m' × Transition m.status m'.status × Keeps m m'

-- A change that returns gives a validated membership whose status has moved along an edge of the
-- life cycle, if at all, of the same identity, user, organization, creation and invitation, and
-- with the join date that was set before, if one was.
pub apply-IsStep : (c : Change) (m m' : Membership) → WellFormed m → apply c m ≡ ok m' → IsStep m m'
apply-IsStep c m m' h e = elim (expected-eq-ok c m m' (rw (apply-eq-expected c m h) at e)) [
  | inl same ↦ subst (IsStep m) (sym same) (h, stay m.status, ground arith)
  | inr (t, a, f, p) ↦ subst (IsStep m) (sym p) (
    changed-WellFormed m t h (mutation_timestamp-eq-ok m (time c) f) c a,
    acts-Transition c m t a,
    acts-Keeps c m t h a,
  )
]

-- A removed membership is final: a change of it returns the membership itself or raises.
pub removed_final :
    (c : Change) (m m' : Membership)
    → WellFormed m
    → m.status ≡ removed
    → apply c m ≡ ok m'
    → m' ≡ m
removed_final c m m' h r e = elim (expected-eq-ok c m m' (rw (apply-eq-expected c m h) at e)) [
  | inl same ↦ same
  | inr (t, a, f, p) ↦ absurd (removed_acts_not c m r a)
]
