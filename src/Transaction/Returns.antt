-- ===== src/Transaction/Returns.antt =====
-- What a statement that returns has done.
use workflow_forge.Transaction.{
  gets, pure, or_rollback, change, lift, commit, Action, Tx, changed, after_failure, ◌>>=◌,
}
use workflow_forge.Base.{Result, ◌≡◌, err, refl, ok}

module _ {S A : Type 0} {tx tx' : Tx S} {a : A} where
  pub pure-returns : (b : A) → pure b tx ≡ (ok a, tx') → (a ≡ b) × (tx' ≡ tx)
  unfolding pure
  pure-returns b h = (cc, cc)

  pub lift-returns : (r : Result A) → lift r tx ≡ (ok a, tx') → (r ≡ ok a) × (tx' ≡ tx)
  unfolding lift
  lift-returns r h = (cc, cc)

  pub gets-returns : (f : S → A) → gets f tx ≡ (ok a, tx') → (f tx.working ≡ a) × (tx' ≡ tx)
  unfolding gets
  gets-returns f h = (cc, cc)

  pub or_rollback-returns : (m : Action S A) → or_rollback m tx ≡ (ok a, tx') → m tx ≡ (ok a, tx')
  unfolding or_rollback
  or_rollback-returns m h = go (m tx).0 (m tx).1 refl h
    where
      go :
          (r : Result A) (mid : Tx S)
          → m tx ≡ (r, mid)
          → ◌≡◌ {A = Result A × Tx S} (r, after_failure r mid) (ok a, tx')
          → m tx ≡ (ok a, tx')
      go (ok b) mid e h = cc
      go (err x) mid e h = cc

module _ {S : Type 0} where
  pub change-returns :
      {tx tx' : Tx S} {u : Unit {0}} (f : S → Result S)
      → change f tx ≡ (ok u, tx')
      → (s : S) × (f tx.working ≡ ok s) × (tx' ≡ record { committed = tx.committed; working = s })
  unfolding change
  change-returns {tx} {tx'} {u} f h = go (f tx.working) refl h
    where
      go :
          (r : Result S)
          → f tx.working ≡ r
          → changed r tx ≡ (ok u, tx')
          → (s : S) × (f tx.working ≡ ok s)
            × (tx' ≡ record { committed = tx.committed; working = s })
      go (ok s) e h = (s, e, cc)
      go (err x) e h = cc

  pub commit-returns :
      (tx : Tx S) {tx' : Tx S} {u : Unit {0}}
      → commit tx ≡ (ok u, tx')
      → tx' ≡ record { committed = tx.working; working = tx.working }
  unfolding commit
  commit-returns tx h = cc

module _ {S A B : Type 0} where
  -- What follows a computation runs on the same state.
  pub lift-then :
      {tx tx' : Tx S} {b : B} (r : Result A) (f : A → Action S B)
      → (lift r >>= f) tx ≡ (ok b, tx')
      → (a : A) × (r ≡ ok a) × (f a tx ≡ (ok b, tx'))
  unfolding lift
  lift-then (ok a) f h = (a, refl, h)
  lift-then (err e) f h = cc

  pub gets-then :
      {tx tx' : Tx S} {b : B} (g : S → A) (f : A → Action S B)
      → (gets g >>= f) tx ≡ (ok b, tx')
      → f (g tx.working) tx ≡ (ok b, tx')
  unfolding gets
  gets-then g f h = h

module _ {A B : Type 0} where
  pub returned : (p : A × B) {a : A} → p.0 ≡ a → p ≡ (a, p.1)
  returned p h = cc
