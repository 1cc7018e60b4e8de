-- ===== src/Transaction.antt =====
-- A use case over one database session: packages/infrastructure/src/workflowforge_infrastructure/
-- database/session.py. Statements read and write the working state; `commit` publishes it, and
-- `rollback` goes back to what was committed last.
pub mod Rules
pub mod Returns
pub mod Growth
use workflow_forge.Base.{Result, ok, err, Error, Option, none, some, is_ok}

pub record Tx (S : Type 0) : Type 0 where
  pub committed : S
  pub working : S

abbrev pub Action : Type 0 → Type 0 → Type 0
Action S A = Tx S → Result A × Tx S

module _ {S A B : Type 0} where
  abbrev pub continue : Result A → (A → Action S B) → Action S B
  continue (ok a) f tx = f a tx
  continue (err e) f tx = (err e, tx)

  infixl 5 ◌>>=◌ ◌>>◌
  abbrev pub ◌>>=◌ : Action S A → (A → Action S B) → Action S B
  ◌>>=◌ m f tx = let (r, tx') = m tx in continue r f tx'

  abbrev pub ◌>>◌ : Action S A → Action S B → Action S B
  m >> k = m >>= λ _. k

module _ {S A : Type 0} where
  unfoldable pub pure : A → Action S A
  pure a tx = (ok a, tx)

  unfoldable pub lift : Result A → Action S A
  lift r tx = (r, tx)

  unfoldable pub raise : Error → Action S A
  raise e tx = (err e, tx)

  unfoldable pub gets : (S → A) → Action S A
  gets f tx = (ok (f tx.working), tx)

  abbrev pub after_failure : Result A → Tx S → Tx S
  after_failure (ok a) tx = tx
  after_failure (err e) tx = record tx { working = tx.committed }

  -- `try: m` with `except Exception: await rollback(); raise`
  unfoldable pub or_rollback : Action S A → Action S A
  or_rollback m tx = let (r, tx') = m tx in (r, after_failure r tx')

  -- One request: the session begins at the committed state, and what is not committed is lost.
  unfoldable pub run : Action S A → S → Result A × S
  run m s = let (r, tx) = m (record { committed = s; working = s }) in (r, tx.committed)

module _ {S : Type 0} where
  -- A statement that changes the working state, or fails and leaves it.
  abbrev pub changed : Result S → Tx S → Result (Unit {0}) × Tx S
  changed (ok s) tx = (ok tt, record tx { working = s })
  changed (err e) tx = (err e, tx)

  unfoldable pub change : (S → Result S) → Action S (Unit {0})
  change f tx = changed (f tx.working) tx

  unfoldable pub commit : Action S (Unit {0})
  commit tx = (ok tt, record tx { committed = tx.working })

  unfoldable pub rollback : Action S (Unit {0})
  rollback tx = (ok tt, record tx { working = tx.committed })
