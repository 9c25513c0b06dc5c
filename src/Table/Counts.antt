-- ===== src/Table/Counts.antt =====
-- How an UPDATE changes the number of rows that a test selects.
use kody_celld.Prelude.{
  length, suc, Text, same, contains, map, ap, ◌||◌, ◌≤◌, ◌<◌, Bool, true, false, ◌&&◌, List, [],
  ◌∷◌, ◌≡◌, refl, arith, inl, inr, Bool-cases, All,
}
use kody_celld.Table.Defs.{select, update, exists, count_if}

module _ {ℓ} {A : Type ℓ} (test hit : A → Bool) (change : A → A) where
  module _ (leaves : (r : A) → hit r ≡ true → test (change r) ≡ false) where
    pub count_if-update_le :
        (rows : List A) → count_if test (update hit change rows) ≤ count_if test rows
    unfolding count_if update
    count_if-update_le [] = omega arith
    count_if-update_le (r ∷ rows) = ground (arith, leaves r, count_if-update_le rows)

    -- Where the UPDATE hits a row of the test, and takes every row that it hits out of the test,
    -- fewer rows remain.
    pub count_if-update_lt :
        (rows : List A)
        → exists (λ r. test r && hit r) rows ≡ true
        → count_if test (update hit change rows) < count_if test rows
    unfolding count_if update exists
    count_if-update_lt [] h = cc
    count_if-update_lt (r ∷ rows) h = elim (Bool-cases (test r && hit r)) [
      | inl both ↦ ground (arith, leaves r, count_if-update_le rows)
      | inr not_both ↦ ground (arith, leaves r, count_if-update_lt rows)
    ]

module _ {ℓ} {A : Type ℓ} (test : A → Bool) where
  pub exists-select :
      (other : A → Bool) (rows : List A)
      → exists other (select test rows) ≡ exists (λ r. test r && other r) rows
  unfolding exists select
  exists-select other [] = refl
  exists-select other (r ∷ rows) = ground (arith, exists-select other rows)

  pub count_if-none : (rows : List A) → All (λ r. test r ≡ false) rows → count_if test rows ≡ 0
  unfolding count_if
  count_if-none [] h = refl
  count_if-none (r ∷ rows) h = rw (h.0) (count_if-none rows h.1)

  pub update-none :
      (change : A → A) (rows : List A)
      → All (λ r. test r ≡ false) rows
      → update test change rows ≡ rows
  unfolding update
  update-none change [] h = refl
  update-none change (r ∷ rows) h = rw (h.0, update-none change rows h.1) refl

  pub select-none : (rows : List A) → All (λ r. test r ≡ false) rows → select test rows ≡ []
  unfolding select
  select-none [] h = refl
  select-none (r ∷ rows) h = rw (h.0) (select-none rows h.1)

-- A key is among the keys of the rows if some row has it.
pub contains-map {ℓ} :
    {A : Type ℓ} (key : A → Text) (k : Text) (rows : List A)
    → contains k (map key rows) ≡ exists (λ r. same (key r) k) rows
unfolding contains exists
contains-map key k [] = refl
contains-map key k (r ∷ rows) = ap (λ b. same (key r) k || b) (contains-map key k rows)

module _ {ℓ} {A : Type ℓ} (test : A → Bool) (change : A → A) where
  pub length-update : (rows : List A) → length (update test change rows) ≡ length rows
  unfolding update
  length-update [] = refl
  length-update (r ∷ rows) = ap suc (length-update rows)
