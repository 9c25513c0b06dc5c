-- ===== src/Table/Sort.antt =====
-- ORDER BY, as an insertion sort.
use kody_celld.Prelude.{
  false, All, inl, inr, Bool-cases, Bool, ◌||◌, List, [], ◌∷◌, if◌then◌else◌, ◌≡◌, refl, arith,
}
use kody_celld.Table.Defs.{exists}

module _ {ℓ} {A : Type ℓ} (after : A → A → Bool) where
  unfoldable pub insert_by : A → List A → List A
  insert_by row [] = row ∷ []
  insert_by row (r ∷ rows) =
      let rest = insert_by row rows in if after row r then r ∷ rest else row ∷ r ∷ rows

  -- A row goes behind the rows that it comes `after`.
  unfoldable pub sort_by : List A → List A
  unfolding insert_by
  sort_by [] = []
  sort_by (row ∷ rows) = insert_by row (sort_by rows)

  exists-insert_by :
      (test : A → Bool) (row : A) (rows : List A)
      → exists test (insert_by row rows) ≡ (test row || exists test rows)
  unfolding insert_by exists
  exists-insert_by test row [] = refl
  exists-insert_by test row (r ∷ rows) = ground (arith, exists-insert_by test row rows)

  -- Sorting keeps which rows there are.
  pub exists-sort_by :
      (test : A → Bool) (rows : List A) → exists test (sort_by rows) ≡ exists test rows
  unfolding sort_by exists
  exists-sort_by test [] = refl
  exists-sort_by test (row ∷ rows) =
      ground (arith, exists-insert_by test row (sort_by rows), exists-sort_by test rows)

  module _ {κ} (P : A → Type κ) where
    All-insert_by : (row : A) (rows : List A) → P row → All P rows → All P (insert_by row rows)
    unfolding insert_by
    All-insert_by row [] h k = (h, tt)
    All-insert_by row (r ∷ rows) h k = elim (Bool-cases (after row r)) [
      | inl t ↦ rw t (k.0, All-insert_by row rows h k.1)
      | inr f ↦ rw f (h, (k.0, k.1))
    ]

    pub All-sort_by : (rows : List A) → All P rows → All P (sort_by rows)
    unfolding sort_by
    All-sort_by [] h = tt
    All-sort_by (row ∷ rows) h = All-insert_by row (sort_by rows) h.0 (All-sort_by rows h.1)

  -- A row that comes after no other is the first.
  pub sort_by-first :
      (row : A) (rows : List A)
      → All (λ r. after row r ≡ false) rows
      → sort_by (row ∷ rows) ≡ row ∷ sort_by rows
  unfolding sort_by insert_by
  sort_by-first row rows h = in_front (sort_by rows) (All-sort_by (λ r. after row r ≡ false) rows h)
    where
      in_front :
          (sorted : List A)
          → All (λ r. after row r ≡ false) sorted
          → insert_by row sorted ≡ row ∷ sorted
      in_front [] k = refl
      in_front (r ∷ sorted) k = rw (k.0) refl
