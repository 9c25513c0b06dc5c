-- ===== src/Table/Defs.antt =====
-- Tables and statements; a row's WHERE clause is a Boolean test.
use kody_celld.Prelude.{ℕ, Bool, false, Option, none, some, List, [], ◌∷◌, if◌then◌else◌, ◌+◌, ◌||◌}

module _ {ℓ} {A : Type ℓ} where
  -- SELECT … WHERE test, first row
  unfoldable pub find : (A → Bool) → List A → Option A
  find test [] = none
  find test (r ∷ rows) = if test r then some r else find test rows

  -- SELECT … WHERE test, all rows
  unfoldable pub select : (A → Bool) → List A → List A
  select test [] = []
  select test (r ∷ rows) = let rest = select test rows in if test r then r ∷ rest else rest

  -- DELETE FROM … WHERE test
  unfoldable pub delete : (A → Bool) → List A → List A
  delete test [] = []
  delete test (r ∷ rows) = let rest = delete test rows in if test r then rest else r ∷ rest

  -- what an UPDATE makes of one row
  abbrev pub changed : (A → Bool) → (A → A) → A → A
  changed test change r = if test r then change r else r

  -- UPDATE … SET change WHERE test
  unfoldable pub update : (A → Bool) → (A → A) → List A → List A
  update test change [] = []
  update test change (r ∷ rows) = changed test change r ∷ update test change rows

  -- EXISTS (SELECT … WHERE test)
  unfoldable pub exists : (A → Bool) → List A → Bool
  exists test [] = false
  exists test (r ∷ rows) = test r || exists test rows

  -- the `rowsWritten` of a DELETE
  unfoldable pub count_if : (A → Bool) → List A → ℕ
  count_if test [] = 0
  count_if test (r ∷ rows) = let rest = count_if test rows in if test r then rest + 1 else rest
