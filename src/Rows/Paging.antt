-- ===== src/Rows/Paging.antt =====
-- The order and the pages of a listing: `ORDER BY`, `LIMIT` and `OFFSET`.
use workflow_forge.Rows.{every}
use workflow_forge.Base.{
  ℕ, Bool, List, ◌++◌, ◌≡◌, All, [], ◌∷◌, length, Bool-cases, ◌-◌, true, if◌then◌else◌, ◌+◌, min,
  ◌∙◌, arith, ap, inl, refl, sym, inr, take, All-take, length-take, drop, All-drop, drop-add,
  length-drop, take-add,
}

module _ {A : Type 0} where
  -- `ORDER BY` with a test that says whether a row comes before another one
  unfoldable pub insert_by : (A → A → Bool) → A → List A → List A
  insert_by earlier x [] = x ∷ []
  insert_by earlier x (y ∷ ys) =
      let rest = insert_by earlier x ys in if earlier x y then x ∷ y ∷ ys else y ∷ rest

  unfoldable pub order_by : (A → A → Bool) → List A → List A
  order_by earlier [] = []
  order_by earlier (x ∷ xs) = insert_by earlier x (order_by earlier xs)

  -- `LIMIT limit OFFSET offset`
  unfoldable pub page : (limit offset : ℕ) → List A → List A
  page limit offset xs = take limit (drop offset xs)

  pub length-page : (l o : ℕ) (xs : List A) → length (page l o xs) ≡ min l (length xs - o)
  unfolding page
  length-page l o xs = length-take l (drop o xs) ∙ ap (min l) (length-drop o xs)

  -- Pages that follow one another are one longer page.
  pub page-append :
      (l l' o : ℕ) (xs : List A) → page l o xs ++ page l' (o + l) xs ≡ page (l + l') o xs
  unfolding page
  page-append l l' o xs =
      ap (λ ys. take l (drop o xs) ++ take l' ys) (sym (drop-add o l xs))
      ∙ take-add l l' (drop o xs)

  pub All-page : (P : A → Type 0) (l o : ℕ) (xs : List A) → All P xs → All P (page l o xs)
  unfolding page
  All-page P l o xs h = All-take P l (drop o xs) (All-drop P o xs h)

  All-insert_by :
      (P : A → Type 0) (earlier : A → A → Bool) (x : A) (xs : List A)
      → P x
      → All P xs
      → All P (insert_by earlier x xs)
  unfolding insert_by
  All-insert_by P earlier x [] px h = (px, tt)
  All-insert_by P earlier x (y ∷ ys) px h = elim (Bool-cases (earlier x y)) [
    | inl e ↦ rw e (px, h)
    | inr e ↦ rw e (h.0, All-insert_by P earlier x ys px h.1)
  ]

  pub All-order_by :
      (P : A → Type 0) (earlier : A → A → Bool) (xs : List A)
      → All P xs
      → All P (order_by earlier xs)
  unfolding order_by
  All-order_by P earlier [] h = tt
  All-order_by P earlier (x ∷ xs) h =
      All-insert_by P earlier x (order_by earlier xs) h.0 (All-order_by P earlier xs h.1)

  length-insert_by :
      (earlier : A → A → Bool) (x : A) (xs : List A)
      → length (insert_by earlier x xs) ≡ length xs + 1
  unfolding insert_by
  length-insert_by earlier x [] = omega arith
  length-insert_by earlier x (y ∷ ys) = ground (arith, length-insert_by earlier x ys)

  pub length-order_by :
      (earlier : A → A → Bool) (xs : List A) → length (order_by earlier xs) ≡ length xs
  unfolding order_by
  length-order_by earlier [] = refl
  length-order_by earlier (x ∷ xs) =
      length-insert_by earlier x (order_by earlier xs)
      ∙ ap (λ n. n + 1) (length-order_by earlier xs)
      ∙ omega arith

  pub every-All : (p : A → Bool) (xs : List A) → All (λ x. p x ≡ true) (every p xs)
  unfolding every
  every-All p [] = tt
  every-All p (x ∷ xs) = elim (Bool-cases (p x)) [
    | inl e ↦ rw e (e, every-All p xs)
    | inr e ↦ rw e (every-All p xs)
  ]
