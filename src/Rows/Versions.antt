-- ===== src/Rows/Versions.antt =====
-- Tables in which the row that a query finds is found again at the same version or a later one.
use workflow_forge.Rows.{first, replace_where}
use workflow_forge.Base.{
  ℕ, Bool, List, ◌≡◌, some, arith, true, ◌≤◌, if◌then◌else◌, any, false, ◌∷◌, refl, [],
}

module _ {A : Type 0} where
  abbrev pub Advanced : (A → Bool) → (A → ℕ) → List A → List A → Type 0
  Advanced p version xs ys =
      (x : A) → first p xs ≡ some x → (y : A) × (first p ys ≡ some y) × (version x ≤ version y)

  pub Advanced-refl : (p : A → Bool) (version : A → ℕ) (xs : List A) → Advanced p version xs xs
  Advanced-refl p version xs x found = (x, found, omega arith)

  pub Advanced-transitive :
      (p : A → Bool) (version : A → ℕ) (xs ys zs : List A)
      → Advanced p version xs ys
      → Advanced p version ys zs
      → Advanced p version xs zs
  Advanced-transitive p version xs ys zs h k x found =
      let (y, y_found, le) = h x found in
      let (z, z_found, le') = k y y_found in (z, z_found, omega (arith, le, le'))

  -- A new row that the query would not have found is passed over.
  pub Advanced-cons :
      (p : A → Bool) (version : A → ℕ) (new : A) (xs : List A)
      → ((x : A) → first p xs ≡ some x → p new ≡ false)
      → Advanced p version xs (new ∷ xs)
  unfolding first
  Advanced-cons p version new xs apart x found = (x, (rw (apart x found) found), omega arith)

  first-replace_where-any :
      (p t : A → Bool) (write : A → A)
      → ((x : A) → p (write x) ≡ p x)
      → (xs : List A) (x : A) → first p xs ≡ some x
      → first p (replace_where t write xs) ≡ some (if t x then write x else x)
  unfolding first replace_where
  first-replace_where-any p t write keeps [] x found = cc
  first-replace_where-any p t write keeps (y ∷ ys) x found =
      ground (arith, keeps y, first-replace_where-any p t write keeps ys x)

  pub Advanced-replace_where :
      (p : A → Bool) (version : A → ℕ) (t : A → Bool) (write : A → A)
      → ((x : A) → p (write x) ≡ p x)
      → ((x : A) → t x ≡ true → version x ≤ version (write x))
      → (xs : List A) → Advanced p version xs (replace_where t write xs)
  Advanced-replace_where p version t write keeps up xs x found = (
    if t x then write x else x,
    first-replace_where-any p t write keeps xs x found,
    later (t x) refl,
  )
    where
      later : (b : Bool) → t x ≡ b → version x ≤ version (if b then write x else x)
      later true e = up x e
      later false e = omega arith

  -- A row that a query finds fails a test that all rows fail.
  pub first-fails :
      (p q : A → Bool) (xs : List A) (x : A)
      → first p xs ≡ some x
      → any q xs ≡ false
      → (p x ≡ true) × (q x ≡ false)
  unfolding first
  first-fails p q [] x found none_holds = cc
  first-fails p q (y ∷ ys) x found none_holds = ground (arith, first-fails p q ys x)
