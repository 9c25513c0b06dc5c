-- ===== src/Table/Pairs.antt =====
-- Tables whose rows are related pair by pair, such as those with a unique key.
use kody_celld.Prelude.{
  Bool, some, List, [], ◌∷◌, ◌≡◌, ◌⊎◌, inl, inr, arith, All, All-weaken, Bool-cases,
}
use kody_celld.Table.Defs.{find, delete, changed, update}
use kody_celld.Table.Laws.{All-delete, All-find}

abbrev pub AllPairs {ℓ κ} : {A : Type ℓ} → (A → A → Type κ) → List A → Type κ
AllPairs R [] = Unit
AllPairs R (x ∷ xs) = All (R x) xs × AllPairs R xs

module _ {ℓ κ} {A : Type ℓ} (R : A → A → Type κ) where
  pub AllPairs-delete :
      (test : A → Bool) (rows : List A) → AllPairs R rows → AllPairs R (delete test rows)
  unfolding delete
  AllPairs-delete test [] h = tt
  AllPairs-delete test (r ∷ rows) h = elim (Bool-cases (test r)) [
    | inl t ↦ rw t (AllPairs-delete test rows h.1)
    | inr f ↦ rw f (All-delete (R r) test rows h.0, AllPairs-delete test rows h.1)
  ]

  All-changed :
      (test : A → Bool) (change : A → A)
      → ((x y : A) → R x y → R (changed test change x) (changed test change y))
      → (r : A) (rows : List A) → All (R r) rows
      → All (R (changed test change r)) (update test change rows)
  unfolding update
  All-changed test change keep r [] h = tt
  All-changed test change keep r (x ∷ rows) h =
      (keep r x h.0, All-changed test change keep r rows h.1)

  pub AllPairs-update :
      (test : A → Bool) (change : A → A)
      → ((x y : A) → R x y → R (changed test change x) (changed test change y))
      → (rows : List A) → AllPairs R rows
      → AllPairs R (update test change rows)
  unfolding update
  AllPairs-update test change keep [] h = tt
  AllPairs-update test change keep (r ∷ rows) h =
      (All-changed test change keep r rows h.0, AllPairs-update test change keep rows h.1)

  -- Every row is the one that a lookup finds, or related to it.
  pub All-others :
      ((x y : A) → R x y → R y x)
      → (test : A → Bool) (rows : List A) (r : A) → AllPairs R rows
      → find test rows ≡ some r
      → All (λ x. (x ≡ r) ⊎ R r x) rows
  unfolding find
  All-others flip test [] r h e = tt
  All-others flip test (x ∷ rows) r h e = elim (Bool-cases (test x)) [
    | inl t ↦
        let same_row : x ≡ r = ground arith in
        (inl same_row, All-weaken (R x) _ rows (λ y p. inr (rw same_row at p)) h.0)
    | inr f ↦
        let later : find test rows ≡ some r = ground arith in
        (
          inr (flip x r (All-find (R x) test rows r h.0 later)),
          All-others flip test rows r h.1 later,
        )
  ]
