-- ===== src/Rows/Laws.antt =====
-- What statements on a table do to what other statements read.
use workflow_forge.Rows.{first, every, replace_where, drop_where, owned}
use workflow_forge.Base.{ℕ, Bool, List, ◌≡◌, some, ◌==◌, true, false, ◌∷◌, arith, [], refl}

module _ {A : Type 0} where
  pub first-satisfies : (p : A → Bool) (xs : List A) (x : A) → first p xs ≡ some x → p x ≡ true
  unfolding first
  first-satisfies p [] x h = cc
  first-satisfies p (y ∷ ys) x h = ground (arith, first-satisfies p ys x)

  -- An update that keeps what a query asks for is seen in the row that the query finds.
  pub first-replace_where :
      (p t : A → Bool) (write : A → A)
      → ((x : A) → p (write x) ≡ p x)
      → (xs : List A) (x : A) → first p xs ≡ some x
      → t x ≡ true
      → first p (replace_where t write xs) ≡ some (write x)
  unfolding first replace_where
  first-replace_where p t write keeps [] x h hit = cc
  first-replace_where p t write keeps (y ∷ ys) x h hit =
      ground (arith, keeps y, first-replace_where p t write keeps ys x)

  -- An update of other rows is not seen.
  pub every-replace_where :
      (p t : A → Bool) (write : A → A)
      → ((x : A) → p (write x) ≡ p x)
      → ((x : A) → t x ≡ true → p x ≡ false)
      → (xs : List A) → every p (replace_where t write xs) ≡ every p xs
  unfolding every replace_where
  every-replace_where p t write keeps apart [] = refl
  every-replace_where p t write keeps apart (y ∷ ys) =
      ground (arith, keeps y, apart y, every-replace_where p t write keeps apart ys)

  pub every-drop_where :
      (p t : A → Bool)
      → ((x : A) → t x ≡ true → p x ≡ false)
      → (xs : List A) → every p (drop_where t xs) ≡ every p xs
  unfolding every drop_where
  every-drop_where p t apart [] = refl
  every-drop_where p t apart (y ∷ ys) = ground (arith, apart y, every-drop_where p t apart ys)

  -- A row of another organization is not seen.
  pub owned-cons :
      (owner : A → ℕ) (o : ℕ) (x : A) (xs : List A)
      → (owner x == o) ≡ false
      → owned owner o (x ∷ xs) ≡ owned owner o xs
  unfolding every
  owned-cons owner o x xs n = rw n
