-- ===== src/Rows.antt =====
-- Tables as lists of rows, and what a `SELECT`, an `UPDATE` and a `DELETE` with a `WHERE` clause do.
pub mod Laws
pub mod Owned
pub mod Versions
pub mod Paging
use workflow_forge.Base.{ℕ, Bool, List, ◌==◌, ◌∷◌, Option, if◌then◌else◌, none, some, []}

module _ {A : Type 0} where
  -- `scalar_one_or_none()` of a `SELECT`
  unfoldable pub first : (A → Bool) → List A → Option A
  first p [] = none
  first p (x ∷ xs) = if p x then some x else first p xs

  -- All rows of a `SELECT`
  unfoldable pub every : (A → Bool) → List A → List A
  every p [] = []
  every p (x ∷ xs) = let rest = every p xs in if p x then x ∷ rest else rest

  -- `UPDATE`, with what it writes into a row
  unfoldable pub replace_where : (A → Bool) → (A → A) → List A → List A
  replace_where p write [] = []
  replace_where p write (x ∷ xs) = (if p x then write x else x) ∷ replace_where p write xs

  -- `DELETE`
  unfoldable pub drop_where : (A → Bool) → List A → List A
  drop_where p [] = []
  drop_where p (x ∷ xs) = let rest = drop_where p xs in if p x then rest else x ∷ rest

  -- The rows of one organization
  abbrev pub owned : (A → ℕ) → ℕ → List A → List A
  owned owner o = every (λ x. owner x == o)
