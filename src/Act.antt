-- ===== src/Act.antt =====
-- Methods that read and write a store and may throw. A throw keeps what was written before it:
-- the stores run no transaction that a throw would roll back.
use kody_celld.Prelude.{Bool, true, false, ◌≡◌, refl, ◌⊎◌, inl, inr}

pub data Result {ℓ κ} (E : Type ℓ) (A : Type κ) : Type (ℓ ⊔ κ) where
  ok : A → Result E A
  err : E → Result E A

pub Result-cases {ℓ κ} :
    {E : Type ℓ} {A : Type κ} (r : Result E A) → ((a : A) × (r ≡ ok a)) ⊎ ((e : E) × (r ≡ err e))
Result-cases (ok a) = inl (a, refl)
Result-cases (err e) = inr (e, refl)

pub ok-injective {ℓ κ} :
    {E : Type ℓ} {A : Type κ} (a b : A) → ◌≡◌ {A = Result E A} (ok a) (ok b) → a ≡ b
ok-injective a b h = cc h

abbrev pub Act : Type 0 → Type 0 → Type 0 → Type 0
Act S E A = S → Result E A × S

module _ {S E : Type 0} where
  abbrev pub then_do : {A B : Type 0} → Result E A × S → (A → Act S E B) → Result E B × S
  then_do (ok a, s) f = f a s
  then_do (err e, s) f = (err e, s)

  infixl 5 ◌>>=◌ ◌>>◌
  abbrev pub ◌>>=◌ : {A B : Type 0} → Act S E A → (A → Act S E B) → Act S E B
  ◌>>=◌ m f s = then_do (m s) f

  abbrev pub ◌>>◌ : {B : Type 0} → Act S E (Unit {0}) → Act S E B → Act S E B
  ◌>>◌ m k s = then_do (m s) (λ _. k)

  abbrev pub pure : {A : Type 0} → A → Act S E A
  pure a s = (ok a, s)

  abbrev pub throw : {A : Type 0} → E → Act S E A
  throw e s = (err e, s)

  abbrev pub gets : {A : Type 0} → (S → A) → Act S E A
  gets f s = (ok (f s), s)

  abbrev pub modify : (S → S) → Act S E (Unit {0})
  modify f s = (ok tt, f s)

  -- `if (!test) throw e`
  abbrev pub require : Bool → E → Act S E (Unit {0})
  require true e s = (ok tt, s)
  require false e s = (err e, s)

-- What the first part of a method keeps, and then the rest, the whole keeps.
pub keeps_then {ℓ} :
    {S E A B : Type 0} (P : S → Type ℓ) (r : Result E A × S) (f : A → Act S E B)
    → P r.1
    → ((a : A) (s : S) → P s → P (f a s).1)
    → P (then_do r f).1
keeps_then P (ok a, s) f h k = k a s h
keeps_then P (err e, s) f h k = h

-- The same, where the rest may rely on what the first part's return establishes.
pub keeps_after {ℓ κ} :
    {S E A B : Type 0} (P : S → Type ℓ) (Q : S → Type κ) (r : Result E A × S) (f : A → Act S E B)
    → P r.1
    → ((a : A) → r.0 ≡ ok a → Q r.1)
    → ((a : A) (s : S) → P s → Q s → P (f a s).1)
    → P (then_do r f).1
keeps_after P Q (ok a, s) f h q k = k a s h (q a refl)
keeps_after P Q (err e, s) f h q k = h
