-- ===== src/Transaction/Growth.antt =====
-- Use cases that only move a state forward in a preorder: what they commit, and what they leave
-- uncommitted, is above what they found.
use workflow_forge.Transaction.{
  raise, gets, rollback, run, pure, or_rollback, change, lift, commit, Action, ◌>>=◌, Tx, continue,
  changed, after_failure,
}
use workflow_forge.Base.{Result, Error, ◌≡◌, err, refl, ok}

pub record IsPreorder {S : Type 0} (R : S → S → Type 0) : Type 0 where
  pub reflexive : (s : S) → R s s
  pub transitive : {a b c : S} → R a b → R b c → R a c

-- The working state is above the committed one, and the committed one above the state before.
pub record Above {S : Type 0} (R : S → S → Type 0) (tx tx' : Tx S) : Type 0 where
  pub committed : R tx.committed tx'.committed
  pub working : R tx'.committed tx'.working

pub record Grows {S A : Type 0} (R : S → S → Type 0) (m : Action S A) : Type 0 where
  pub at : (tx : Tx S) → R tx.committed tx.working → Above R tx (m tx).1

module _ {S : Type 0} {R : S → S → Type 0} (P : IsPreorder R) where
  Above-same : (tx : Tx S) → R tx.committed tx.working → Above R tx tx
  Above-same tx h = record { committed = P.reflexive tx.committed; working = h }

  Above-lost : (tx : Tx S) → Above R tx (record tx { working = tx.committed })
  Above-lost tx = record {
    committed = P.reflexive tx.committed;
    working = P.reflexive tx.committed;
  }

  Above-transitive : {a b c : Tx S} → Above R a b → Above R b c → Above R a c
  Above-transitive h k = record {
    committed = P.transitive h.committed k.committed;
    working = k.working;
  }

  module _ {A : Type 0} where
    pub Grows-pure : (a : A) → Grows R (pure a)
    unfolding pure
    Grows-pure a = record { at = Above-same }

    pub Grows-lift : (r : Result A) → Grows R (lift r)
    unfolding lift
    Grows-lift r = record { at = Above-same }

    pub Grows-raise : (e : Error) → Grows R (raise {A = A} e)
    unfolding raise
    Grows-raise e = record { at = Above-same }

    pub Grows-gets : (f : S → A) → Grows R (gets f)
    unfolding gets
    Grows-gets f = record { at = Above-same }

    pub Above-after_failure :
        {tx : Tx S} (r : Result A) (tx' : Tx S) → Above R tx tx' → Above R tx (after_failure r tx')
    Above-after_failure (ok a) tx' h = h
    Above-after_failure (err e) tx' h = Above-transitive h (Above-lost tx')

    pub Grows-or_rollback : {m : Action S A} → Grows R m → Grows R (or_rollback m)
    unfolding or_rollback
    Grows-or_rollback {m} g = record {
      at = λ tx h. Above-after_failure (m tx).0 (m tx).1 (g.at tx h);
    }

  pub Grows-commit : Grows R commit
  unfolding commit
  Grows-commit = record { at = λ tx h. record { committed = h; working = P.reflexive tx.working } }

  pub Grows-rollback : Grows R rollback
  unfolding rollback
  Grows-rollback = record { at = λ tx h. Above-lost tx }

  pub Grows-change : (f : S → Result S) → ((s s' : S) → f s ≡ ok s' → R s s') → Grows R (change f)
  unfolding change
  Grows-change f k = record { at = λ tx h. go (f tx.working) refl tx h }
    where
      go :
          (r : Result S) {w : S}
          → f w ≡ r
          → (tx : Tx S) → R tx.committed w
          → Above R tx (changed r (record tx { working = w })).1
      go (ok s) e tx h = record {
        committed = P.reflexive tx.committed;
        working = P.transitive h (k _ s e);
      }
      go (err x) e tx h = record { committed = P.reflexive tx.committed; working = h }

  module _ {A B : Type 0} where
    pub Grows-bind :
        (m : Action S A) (f : A → Action S B)
        → Grows R m
        → ((a : A) → Grows R (f a))
        → Grows R (m >>= f)
    Grows-bind m f g k = record { at = λ tx h. go (m tx).0 (m tx).1 (g.at tx h) }
      where
        go :
            {tx : Tx S} (r : Result A) (tx' : Tx S)
            → Above R tx tx'
            → Above R tx (continue r f tx').1
        go (ok a) tx' h = Above-transitive h ((k a).at tx' h.working)
        go (err e) tx' h = h

    -- The rest may rest on what the first part has returned.
    pub Grows-bind-returns :
        (m : Action S A) (f : A → Action S B)
        → Grows R m
        → ((a : A) (tx tx' : Tx S) → m tx ≡ (ok a, tx') → Grows R (f a))
        → Grows R (m >>= f)
    Grows-bind-returns m f g k = record { at = λ tx h. go tx (m tx).0 (m tx).1 refl (g.at tx h) }
      where
        go :
            (tx : Tx S) (r : Result A) (tx' : Tx S)
            → m tx ≡ (r, tx')
            → Above R tx tx'
            → Above R tx (continue r f tx').1
        go tx (ok a) tx' e h = Above-transitive h ((k a tx tx' e).at tx' h.working)
        go tx (err x) tx' e h = h

    -- The rest may rest on what a computation has returned.
    pub Grows-lift-bind :
        (r : Result A) (f : A → Action S B)
        → ((a : A) → r ≡ ok a → Grows R (f a))
        → Grows R (lift r >>= f)
    unfolding lift
    Grows-lift-bind (ok a) f k = record { at = λ tx h. (k a refl).at tx h }
    Grows-lift-bind (err e) f k = record { at = Above-same }

  pub run-Grows : {A : Type 0} (m : Action S A) (s : S) → Grows R m → R s (run m s).1
  unfolding run
  run-Grows m s g = (g.at (record { committed = s; working = s }) (P.reflexive s)).committed
