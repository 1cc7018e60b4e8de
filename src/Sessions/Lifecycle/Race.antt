-- ===== src/Sessions/Lifecycle/Race.antt =====
-- Two rotations of the same refresh token, one after the other.
use workflow_forge.Sessions.Token.{RefreshToken}
use workflow_forge.Sessions.Repository.{rotate_refresh_token}
use workflow_forge.Sessions.Store.Consumption.{
  consume_token-eq-ok, none_left, consume_token-of_none,
}
use workflow_forge.Sessions.Store.Changes.{token_violation-eq-none}
use workflow_forge.Sessions.Lifecycle.Refresh.{rotate_refresh_token-returns}
use workflow_forge.Base.{
  Option, ℕ, Bool, Error, List, is_some, some, ◌≡◌, ok, false, true, suc, refresh_rotation_conflict,
  ◌∷◌, ◌==◌, map, none, arith, ◌≤◌, if◌then◌else◌, Bool-cases, ap, err, ◌∙◌, [], inl, sym,
  Option-cases, inr, refl,
}
use workflow_forge.Sessions.Store.{
  is_rotatable, count, find_token, Violation, Store, consume_token, insert_token,
  refresh_token_integrity_error, consumed, token_violation,
}
use workflow_forge.Transaction.{run, or_rollback, change, Tx}
use workflow_forge.Time.{DateTime, instant}

-- What a rotation that comes too late raises: the violation of its insertion, or the conflict.
abbrev pub refusal : Option Violation → Error
refusal (some v) = refresh_token_integrity_error v
refusal none = refresh_rotation_conflict

-- A row that has been consumed is still found by its digest.
consumed_found :
    (i d g r : ℕ) (at : DateTime) (s : Store) (ts : List RefreshToken) (n : ℕ)
    → count (is_rotatable i d g at s) ts ≡ suc n
    → is_some
        (find_token d (map (λ t. if is_rotatable i d g at s t then consumed r at t else t) ts))
      ≡ true
unfolding count is_rotatable find_token
consumed_found i d g r at s [] n h = cc
consumed_found i d g r at s (t ∷ ts) n h = ground (arith, consumed_found i d g r at s ts n)

new_unfit :
    (i d g : ℕ) (at : DateTime) (s w : Store) (r : RefreshToken)
    → is_some (find_token d w.tokens) ≡ true
    → is_some (find_token r.token_digest w.tokens) ≡ false
    → is_rotatable i d g at s r ≡ false
unfolding is_rotatable
new_unfit i d g at s w r old new = elim (Bool-cases (r.token_digest == d)) [
  | inl e ↦
      let same : r.token_digest ≡ d = digest_eq r.token_digest d e in
      let e : true ≡ false = sym old ∙ ap (λ k. is_some (find_token k w.tokens)) (sym same) ∙ new in
      cc
  | inr e ↦ other r e
]
  where
    digest_eq : (a b : ℕ) → (a == b) ≡ true → a ≡ b
    digest_eq a b e = ground arith

    other : (r : RefreshToken) → (r.token_digest == d) ≡ false → is_rotatable i d g at s r ≡ false
    other r e = unfold is_rotatable in ground arith

count-cons :
    {A : Type 0} (p : A → Bool) (x : A) (xs : List A)
    → p x ≡ false
    → count p xs ≡ 0
    → count p (x ∷ xs) ≡ 0
unfolding count
count-cons p x xs h k = rw h k

-- After a rotation the update of another one of the same token hits no row, its own replacement
-- included.
no_row_left :
    (i d g k : ℕ) (at later : DateTime) (a s : Store) (r : RefreshToken)
    → consume_token i d g k at a ≡ ok s
    → instant at ≤ instant later
    → is_some (find_token r.token_digest s.tokens) ≡ false
    → count (is_rotatable i d g later (record s { tokens = r ∷ s.tokens })) (r ∷ s.tokens) ≡ 0
no_row_left i d g k at later a s r consumes le new =
    let (tokens, sessions, one) = consume_token-eq-ok i d g k at a s consumes in
    let w : Store = record s { tokens = r ∷ s.tokens } in
    let old =
      ap (λ ts. is_some (find_token d ts)) tokens ∙ consumed_found i d g k at a a.tokens 0 one in
    count-cons (is_rotatable i d g later w) r s.tokens (new_unfit i d g later w s r old new) (
      ap (count (is_rotatable i d g later w)) tokens
      ∙ none_left i d g k at later a w a.tokens sessions le)

-- Of two rotations of the repository that expect the same session, digest and generation, the one
-- that runs on what the other one has left, and not earlier by its clock, raises and leaves the
-- tables as they were, whatever replacement it brings: it raises the error of the insertion if the
-- replacement violates a constraint, and the rotation conflict if it violates none.
pub rotation_race :
    (i d g : ℕ) (r r' t : RefreshToken) (at later : DateTime) (tx tx' : Tx Store)
    → rotate_refresh_token i d g r at tx ≡ (ok t, tx')
    → instant at ≤ instant later
    → run (rotate_refresh_token i d g r' later) tx'.working
      ≡ (err (refusal (token_violation tx'.working r')), tx'.working)
unfolding run rotate_refresh_token or_rollback change insert_token
rotation_race i d g r r' t at later tx tx' h le =
    let s = tx'.working in
    let (a, inserts, consumes) = rotate_refresh_token-returns i d g r at tx h in
    elim (Option-cases (token_violation s r')) [
      | inl n ↦
          let w : Store = record s { tokens = r' ∷ s.tokens } in
          let new = token_violation-eq-none s r' n in
          let refused =
            consume_token-of_none i d g r'.id later w
              (no_row_left i d g r.id at later a s r' consumes le new) in
          rw n (rw refused refl)
      | inr (v, e) ↦ rw e refl
    ]
