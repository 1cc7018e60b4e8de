-- ===== src/Identity/Owners/Safety.antt =====
-- The check lets an owner go exactly if another active owner stays.
use workflow_forge.Identity.Owners.{
  active_owner_ids, mem_id, is_active_owner, ensure_not_last_active_owner, MembershipMutation,
  demote_owner,
}
use workflow_forge.Identity.Membership.{Membership}
use workflow_forge.Base.{
  List, Bool, leb, length, ◌≡◌, ◌&&◌, true, not, ◌==◌, arith, any, ◌∷◌, [], ℕ, ◌≢◌, ◌≤◌,
  if◌then◌else◌, err, last_active_owner_violation, ok,
}

-- Another membership than the target's is an active owner of the same organization.
abbrev pub is_other_owner : Membership → Membership → Bool
is_other_owner target m = is_active_owner target.organization_id m && not (m.id == target.id)

mem_id-active_owner_ids :
    (target : Membership) (ms : List Membership)
    → mem_id target.id (active_owner_ids target ms) ≡ true
unfolding active_owner_ids
mem_id-active_owner_ids target [] = ground arith
mem_id-active_owner_ids target (m ∷ ms) = ground (arith, mem_id-active_owner_ids target ms)

length-mem_id : (a : ℕ) (s : List ℕ) → mem_id a s ≡ true → 1 ≤ length s
length-mem_id a [] h = cc
length-mem_id a (b ∷ s) h = omega arith

length-mem_id_ne :
    (a b : ℕ) (s : List ℕ) → mem_id a s ≡ true → mem_id b s ≡ true → a ≢ b → 2 ≤ length s
length-mem_id_ne a b [] h k ne = cc
length-mem_id_ne a b (c ∷ s) h k ne = ground (arith, length-mem_id a s, length-mem_id b s)

-- The set has a second identifier exactly if there is another owner.
ids_iff :
    (target : Membership) (ms : List Membership)
    → leb (length (active_owner_ids target ms)) 1 ≡ not (any (is_other_owner target) ms)
unfolding active_owner_ids
ids_iff target [] = ground arith
ids_iff target (m ∷ ms) = ground (
  arith,
  ids_iff target ms,
  mem_id-active_owner_ids target ms,
  length-mem_id target.id (active_owner_ids target ms),
  length-mem_id_ne target.id m.id (active_owner_ids target ms),
)

-- For an active owner the check passes exactly if another membership of the list is an active owner
-- of the same organization; for any other target it always passes.
pub ensure_not_last_active_owner-eq :
    (target : Membership) (ms : List Membership) (mutation : MembershipMutation)
    → ensure_not_last_active_owner target ms mutation ≡ (
        if is_active_owner target.organization_id target && not (any (is_other_owner target) ms)
        then err last_active_owner_violation
        else ok tt)
unfolding ensure_not_last_active_owner
ensure_not_last_active_owner-eq target ms demote_owner =
    ground (arith, ids_iff target ms, mem_id-active_owner_ids target ms)
ensure_not_last_active_owner-eq target ms _ =
    ground (arith, ids_iff target ms, mem_id-active_owner_ids target ms)
