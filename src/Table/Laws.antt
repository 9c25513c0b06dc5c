-- ===== src/Table/Laws.antt =====
-- Laws of the statements.
use kody_celld.Prelude.{
  Bool, true, false, none, some, List, [], ◌∷◌, ◌≡◌, refl, ap, inl, inr, arith, All, Bool-cases,
}
use kody_celld.Table.Defs.{find, select, delete, changed, update, exists}

module _ {ℓ} {A : Type ℓ} where
  pub find-delete_self : (test : A → Bool) (rows : List A) → find test (delete test rows) ≡ none
  unfolding find delete
  find-delete_self test [] = refl
  find-delete_self test (r ∷ rows) = ground (arith, find-delete_self test rows)

  pub test-find :
      (test : A → Bool) (rows : List A) (r : A) → find test rows ≡ some r → test r ≡ true
  unfolding find
  test-find test [] r h = cc
  test-find test (x ∷ rows) r h = ground (arith, test-find test rows r)

  pub find-none :
      (test : A → Bool) (rows : List A) → All (λ r. test r ≡ false) rows → find test rows ≡ none
  unfolding find
  find-none test [] h = refl
  find-none test (r ∷ rows) h = rw (h.0) (find-none test rows h.1)

  pub find-none-All :
      (test : A → Bool) (rows : List A) → find test rows ≡ none → All (λ r. test r ≡ false) rows
  unfolding find
  find-none-All test [] h = tt
  find-none-All test (r ∷ rows) h = (ground arith, find-none-All test rows (ground arith))

  pub delete-All-false :
      (test : A → Bool) (rows : List A) → All (λ r. test r ≡ false) (delete test rows)
  unfolding delete
  delete-All-false test [] = tt
  delete-All-false test (r ∷ rows) = elim (Bool-cases (test r)) [
    | inl t ↦ rw t (delete-All-false test rows)
    | inr f ↦ rw f (f, delete-All-false test rows)
  ]

  pub delete_eq_self :
      (test : A → Bool) (rows : List A) → All (λ r. test r ≡ false) rows → delete test rows ≡ rows
  unfolding delete
  delete_eq_self test [] h = refl
  delete_eq_self test (r ∷ rows) h = rw (h.0, delete_eq_self test rows h.1)

  pub exists_of_find :
      (test : A → Bool) (rows : List A) (r : A) → find test rows ≡ some r → exists test rows ≡ true
  unfolding find exists
  exists_of_find test [] r h = cc
  exists_of_find test (x ∷ rows) r h = ground (arith, exists_of_find test rows r)

  pub find_of_exists :
      (test : A → Bool) (rows : List A)
      → exists test rows ≡ true
      → (r : A) × (find test rows ≡ some r)
  unfolding find exists
  find_of_exists test [] h = cc h
  find_of_exists test (x ∷ rows) h = elim (Bool-cases (test x)) [
    | inl t ↦ (x, rw t refl)
    | inr f ↦ let (r, found) = find_of_exists test rows (ground (arith, h, f)) in (r, rw f found)
  ]

  pub none_exists :
      (test : A → Bool) (rows : List A) → exists test rows ≡ false → All (λ r. test r ≡ false) rows
  unfolding exists
  none_exists test [] h = tt
  none_exists test (r ∷ rows) h = (ground arith, none_exists test rows (ground arith))

  -- A lookup whose rows the deletion leaves alone.
  pub find-delete_other :
      (test gone : A → Bool) (rows : List A)
      → ((r : A) → test r ≡ true → gone r ≡ false)
      → find test (delete gone rows) ≡ find test rows
  unfolding find delete
  find-delete_other test gone [] h = refl
  find-delete_other test gone (r ∷ rows) h = ground (arith, find-delete_other test gone rows h, h r)

  -- The row that a lookup finds after a deletion was not deleted.
  pub find-delete_kept :
      (test gone : A → Bool) (rows : List A) (r : A)
      → find test (delete gone rows) ≡ some r
      → gone r ≡ false
  unfolding find delete
  find-delete_kept test gone [] r h = cc
  find-delete_kept test gone (x ∷ rows) r h = ground (arith, find-delete_kept test gone rows r)

  -- The row that a lookup finds is still found if it is not deleted itself.
  pub find-delete-some :
      (test gone : A → Bool) (rows : List A) (r : A)
      → find test rows ≡ some r
      → gone r ≡ false
      → find test (delete gone rows) ≡ some r
  unfolding find delete
  find-delete-some test gone [] r h k = cc
  find-delete-some test gone (x ∷ rows) r h k = elim (Bool-cases (test x)) [
    | inl t ↦
        let same_row : x ≡ r = ground arith in
        let kept : gone x ≡ false = rw same_row k in ground (arith, kept, t, same_row)
    | inr f ↦ ground (arith, find-delete-some test gone rows r, f)
  ]

  pub find-delete-none :
      (test gone : A → Bool) (rows : List A)
      → ((r : A) → test r ≡ true → gone r ≡ true)
      → find test (delete gone rows) ≡ none
  unfolding find delete
  find-delete-none test gone [] all = refl
  find-delete-none test gone (r ∷ rows) all =
      ground (arith, all r, find-delete-none test gone rows all)

  -- A row that the deletion leaves alone still exists.
  pub exists-delete_kept :
      (test gone : A → Bool) (rows : List A)
      → ((r : A) → test r ≡ true → gone r ≡ false)
      → exists test rows ≡ true
      → exists test (delete gone rows) ≡ true
  unfolding exists delete
  exists-delete_kept test gone [] keep h = h
  exists-delete_kept test gone (r ∷ rows) keep h =
      ground (arith, keep r, exists-delete_kept test gone rows keep)

  pub exists_weaken :
      (test other : A → Bool) (rows : List A)
      → ((r : A) → test r ≡ true → other r ≡ true)
      → exists test rows ≡ true
      → exists other rows ≡ true
  unfolding exists
  exists_weaken test other [] f h = h
  exists_weaken test other (r ∷ rows) f h = ground (arith, f r, exists_weaken test other rows f)

  -- A write that the lookup's test does not see changes the row that is found.
  pub find-update-some :
      (test written : A → Bool) (change : A → A) (rows : List A) (r : A)
      → ((x : A) → test (changed written change x) ≡ test x)
      → find test rows ≡ some r
      → find test (update written change rows) ≡ some (changed written change r)
  unfolding find update
  find-update-some test written change [] r blind h = cc
  find-update-some test written change (x ∷ rows) r blind h = elim (Bool-cases (test x)) [
    | inl t ↦
        let same_row : x ≡ r = ground arith in
        rw (blind x, t) (ap (λ y. some (changed written change y)) same_row)
    | inr f ↦ rw (blind x, f) (find-update-some test written change rows r blind (ground arith))
  ]

module _ {ℓ κ} {A : Type ℓ} (P : A → Type κ) where
  pub All-find :
      (test : A → Bool) (rows : List A) (r : A) → All P rows → find test rows ≡ some r → P r
  unfolding find
  All-find test [] r h e = cc
  All-find test (x ∷ rows) r h e = elim (Bool-cases (test x)) [
    | inl t ↦ let same_row : x ≡ r = ground arith in rw (same_row) at (h.0)
    | inr f ↦ All-find test rows r h.1 (ground arith)
  ]

  pub All-delete : (test : A → Bool) (rows : List A) → All P rows → All P (delete test rows)
  unfolding delete
  All-delete test [] h = tt
  All-delete test (r ∷ rows) h = elim (Bool-cases (test r)) [
    | inl t ↦ rw t (All-delete test rows h.1)
    | inr f ↦ rw f (h.0, All-delete test rows h.1)
  ]

  pub All-select : (test : A → Bool) (rows : List A) → All P rows → All P (select test rows)
  unfolding select
  All-select test [] h = tt
  All-select test (r ∷ rows) h = elim (Bool-cases (test r)) [
    | inl t ↦ rw t (h.0, All-select test rows h.1)
    | inr f ↦ rw f (All-select test rows h.1)
  ]

  pub All-update :
      (test : A → Bool) (change : A → A) (rows : List A)
      → ((r : A) → P r → P (changed test change r))
      → All P rows
      → All P (update test change rows)
  unfolding update
  All-update test change [] f h = tt
  All-update test change (r ∷ rows) f h = (f r h.0, All-update test change rows f h.1)
