-- ===== src/Results.antt =====
-- Functions that return or throw, in sequence.
use kody_celld.Prelude.{◌≡◌, refl}
use kody_celld.Act.{Result, ok, err}

infixl 5 ◌>>=◌
abbrev pub ◌>>=◌ : {E A B : Type 0} → Result E A → (A → Result E B) → Result E B
ok a >>= f = f a
err e >>= f = err e

-- A sequence that returned has passed its first part, and returned from the rest.
pub passed :
    {E A B : Type 0} (C : Type 0) (r : Result E A) (f : A → Result E B) (b : B)
    → ((a : A) → r ≡ ok a → f a ≡ ok b → C)
    → (r >>= f) ≡ ok b
    → C
passed C (ok a) f b k h = k a refl h
passed C (err e) f b k h = absurd (cc h)
