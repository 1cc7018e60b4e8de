-- ===== src/Rows/Owned.antt =====
-- Tables that agree on the rows of the other organizations.
use workflow_forge.Rows.{owned, replace_where, drop_where}
use workflow_forge.Base.{ℕ, Bool, List, ◌==◌, ◌≡◌, ◌∷◌, false, true, arith, ap}
use workflow_forge.Rows.Laws.{every-replace_where, owned-cons, every-drop_where}

abbrev pub SameRows : {A : Type 0} → (A → ℕ) → ℕ → List A → List A → Type 0
SameRows owner o xs ys = (p : ℕ) → (p == o) ≡ false → owned owner p ys ≡ owned owner p xs

module _ {A : Type 0} (owner : A → ℕ) (o : ℕ) where
  pub SameRows-cons : (x : A) (xs : List A) → owner x ≡ o → SameRows owner o xs (x ∷ xs)
  SameRows-cons x xs own p n = owned-cons owner p x xs (other p n)
    where
      other : (p : ℕ) → (p == o) ≡ false → (owner x == p) ≡ false
      other p n = ground arith

  pub SameRows-replace_where :
      (t : A → Bool) (write : A → A)
      → ((x : A) → owner (write x) ≡ owner x)
      → ((x : A) → t x ≡ true → owner x ≡ o)
      → (xs : List A) → SameRows owner o xs (replace_where t write xs)
  SameRows-replace_where t write keeps own xs p n =
      every-replace_where (λ x. owner x == p) t write (λ x. ap (λ k. k == p) (keeps x))
        (λ x hit. apart (owner x) p (own x hit) n) xs
    where
      apart : (k p : ℕ) → k ≡ o → (p == o) ≡ false → (k == p) ≡ false
      apart k p e n = ground arith

  pub SameRows-drop_where :
      (t : A → Bool)
      → ((x : A) → t x ≡ true → owner x ≡ o)
      → (xs : List A) → SameRows owner o xs (drop_where t xs)
  SameRows-drop_where t own xs p n =
      every-drop_where (λ x. owner x == p) t (λ x hit. apart (owner x) p (own x hit) n) xs
    where
      apart : (k p : ℕ) → k ≡ o → (p == o) ≡ false → (k == p) ≡ false
      apart k p e n = ground arith
