-- ===== src/Transaction/Rules.antt =====
-- Rules for use cases: what has been committed when one raises, and what a success went through.
use workflow_forge.Transaction.{
  raise, gets, rollback, run, pure, or_rollback, change, lift, commit, Action, ◌>>=◌, Tx, continue,
  changed, after_failure, ◌>>◌,
}
use workflow_forge.Base.{Result, Error, ◌≡◌, is_ok, err, refl, false, ok, ◌∙◌, ap, ◌≢◌, true}

module _ {S A : Type 0} where
  -- Whatever happens, nothing is committed.
  pub record Quiet (m : Action S A) : Type 0 where
    pub at : (tx : Tx S) → (m tx).1.committed ≡ tx.committed

  -- If the action raises, it has committed nothing.
  pub record Careful (m : Action S A) : Type 0 where
    pub at : (tx : Tx S) → is_ok (m tx).0 ≡ false → (m tx).1.committed ≡ tx.committed

  pub Quiet-Careful : {m : Action S A} → Quiet m → Careful m
  Quiet-Careful q = record { at = λ tx h. q.at tx }

  pub Quiet-pure : (a : A) → Quiet (pure {S = S} a)
  unfolding pure
  Quiet-pure a = record { at = λ tx. refl }

  pub Quiet-lift : (r : Result A) → Quiet (lift {S = S} r)
  unfolding lift
  Quiet-lift r = record { at = λ tx. refl }

  pub Quiet-raise : (e : Error) → Quiet (raise {S = S} {A = A} e)
  unfolding raise
  Quiet-raise e = record { at = λ tx. refl }

  pub Quiet-gets : (f : S → A) → Quiet (gets f)
  unfolding gets
  Quiet-gets f = record { at = λ tx. refl }

  pub Quiet-or_rollback : {m : Action S A} → Quiet m → Quiet (or_rollback m)
  unfolding or_rollback
  Quiet-or_rollback {m} q = record { at = λ tx. or_rollback_committed (m tx).0 (m tx).1 ∙ q.at tx }
    where
      or_rollback_committed :
          (r : Result A) (tx : Tx S) → (after_failure r tx).committed ≡ tx.committed
      or_rollback_committed (ok a) tx = refl
      or_rollback_committed (err e) tx = refl

  pub Careful-or_rollback : {m : Action S A} → Careful m → Careful (or_rollback m)
  unfolding or_rollback
  Careful-or_rollback {m} q = record { at = λ tx. raised (m tx).0 (m tx).1 (q.at tx) }
    where
      raised :
          {s : S} (r : Result A) (tx : Tx S)
          → (is_ok r ≡ false → tx.committed ≡ s)
          → is_ok r ≡ false
          → (after_failure r tx).committed ≡ s
      raised (ok a) tx c h = cc
      raised (err e) tx c h = c h

module _ {S : Type 0} where
  pub Quiet-change : (f : S → Result S) → Quiet (change f)
  unfolding change
  Quiet-change f = record { at = λ tx. changed_committed (f tx.working) tx }
    where
      changed_committed : (r : Result S) (tx : Tx S) → (changed r tx).1.committed ≡ tx.committed
      changed_committed (ok s) tx = refl
      changed_committed (err e) tx = refl

  pub Quiet-rollback : Quiet (rollback {S = S})
  unfolding rollback
  Quiet-rollback = record { at = λ tx. refl }

module _ {S A B : Type 0} where
  pub Quiet-bind :
      (m : Action S A) (f : A → Action S B) → Quiet m → ((a : A) → Quiet (f a)) → Quiet (m >>= f)
  Quiet-bind m f q k = record { at = λ tx. go (m tx).0 (m tx).1 ∙ q.at tx }
    where
      go : (r : Result A) (tx : Tx S) → (continue r f tx).1.committed ≡ tx.committed
      go (ok a) tx = (k a).at tx
      go (err e) tx = refl

  pub Careful-bind :
      (m : Action S A) (f : A → Action S B)
      → Quiet m
      → ((a : A) → Careful (f a))
      → Careful (m >>= f)
  Careful-bind m f q k = record { at = λ tx h. go (m tx).0 (m tx).1 h ∙ q.at tx }
    where
      go :
          (r : Result A) (tx : Tx S)
          → is_ok (continue r f tx).0 ≡ false
          → (continue r f tx).1.committed ≡ tx.committed
      go (ok a) tx h = (k a).at tx h
      go (err e) tx h = refl

  -- A success of a sequence goes through a success of its first part.
  pub >>=-returns :
      (m : Action S A) (f : A → Action S B) (tx : Tx S) {b : B} {tx' : Tx S}
      → (m >>= f) tx ≡ (ok b, tx')
      → (a : A) × (mid : Tx S) × (m tx ≡ (ok a, mid)) × (f a mid ≡ (ok b, tx'))
  >>=-returns m f tx {b} {tx'} h = go (m tx).0 (m tx).1 refl h
    where
      go :
          (r : Result A) (mid : Tx S)
          → m tx ≡ (r, mid)
          → continue r f mid ≡ (ok b, tx')
          → (a : A) × (mid : Tx S) × (m tx ≡ (ok a, mid)) × (f a mid ≡ (ok b, tx'))
      go (ok a) mid e h = (a, mid, e, h)
      go (err x) mid e h = cc

module _ {S A B : Type 0} where
  -- The rest may rest on what a computation has returned.
  pub Careful-lift-bind :
      (r : Result A) (f : A → Action S B)
      → ((a : A) → r ≡ ok a → Careful (f a))
      → Careful (lift r >>= f)
  unfolding lift
  Careful-lift-bind (ok a) f k = record { at = λ tx h. (k a refl).at tx h }
  Careful-lift-bind (err e) f k = record { at = λ tx h. refl }

module _ {S A : Type 0} where
  pub Careful-commit-lift :
      (r : Result A) → is_ok r ≡ true → Careful (commit {S = S} >>= λ _. lift r)
  unfolding commit lift
  Careful-commit-lift (ok a) k = record { at = λ tx h. cc }
  Careful-commit-lift (err e) k = cc

  -- If the action raises another exception than `x`, it has committed nothing.
  pub record CarefulBut (x : Error) (m : Action S A) : Type 0 where
    pub at : (tx : Tx S) (e : Error) → (m tx).0 ≡ err e → e ≢ x → (m tx).1.committed ≡ tx.committed

  pub Careful-CarefulBut : {m : Action S A} (x : Error) → Careful m → CarefulBut x m
  Careful-CarefulBut x c = record { at = λ tx e h n. c.at tx (ap is_ok h) }

  pub CarefulBut-commit-raise : (x : Error) → CarefulBut x (commit {S = S} >>= λ _. raise {A = A} x)
  unfolding commit raise
  CarefulBut-commit-raise x = record { at = λ tx e h n. absurd (n (cc)) }

module _ {S A B : Type 0} where
  pub CarefulBut-bind :
      (x : Error) (m : Action S A) (f : A → Action S B)
      → Quiet m
      → ((a : A) → CarefulBut x (f a))
      → CarefulBut x (m >>= f)
  CarefulBut-bind x m f q k = record { at = λ tx e h n. go (m tx).0 (m tx).1 e h n ∙ q.at tx }
    where
      go :
          (r : Result A) (tx : Tx S) (e : Error)
          → (continue r f tx).0 ≡ err e
          → e ≢ x
          → (continue r f tx).1.committed ≡ tx.committed
      go (ok a) tx e h n = (k a).at tx e h n
      go (err y) tx e h n = refl

module _ {S : Type 0} where
  pub Careful-commit_last : Careful (commit {S = S})
  unfolding commit
  Careful-commit_last = record { at = λ tx h. cc }

module _ {S A : Type 0} where
  pub Careful-commit : (a : A) → Careful (commit {S = S} >> pure a)
  unfolding commit pure
  Careful-commit a = record { at = λ tx h. cc }

  -- A careful use case is atomic: when it raises, the stored state is the one that it found.
  pub run-Careful :
      (m : Action S A) (s : S) {e : Error} → Careful m → (run m s).0 ≡ err e → (run m s).1 ≡ s
  unfolding run
  run-Careful m s c h = c.at (record { committed = s; working = s }) (ap is_ok h)

pub ruleset quiet_rules = (
  Quiet-pure, Quiet-lift, Quiet-raise, Quiet-gets, Quiet-change, Quiet-rollback, Quiet-bind,
  Quiet-or_rollback,
)

pub ruleset careful_rules =
    (quiet_rules, Careful-commit, Careful-commit_last, Careful-bind, Careful-or_rollback)
