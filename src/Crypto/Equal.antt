-- ===== src/Crypto/Equal.antt =====
-- `constantTimeEqual` and `constantTimeEqualString` of src/auth/password.ts.
use Prim.Native.Nat.{bit_or, bit_xor}
use kody_celld.Prelude.{
  ℕ, ◌≡◌, ◌↔◌, refl, Bool, true, false, List, [], ◌∷◌, ◌==◌, arith, length, Text, if◌then◌else◌,
  not,
}
use kody_celld.Crypto.Bits.{bit_or-zero, bit_xor-zero, bit_xor_self}

-- The loop: `diff |= (a[i] ?? 0) ^ (b[i] ?? 0)` for `i < a.byteLength`.
unfoldable pub difference : ℕ → List ℕ → List ℕ → ℕ
difference diff [] bs = diff
difference diff (a ∷ as') [] = difference (bit_or diff (bit_xor a 0)) as' []
difference diff (a ∷ as') (b ∷ bs) = difference (bit_or diff (bit_xor a b)) as' bs

unfoldable pub constant_time_equal : List ℕ → List ℕ → Bool
constant_time_equal a b = if not (length a == length b) then false else difference 0 a b == 0

-- `encode` is the platform's TextEncoder.
unfoldable pub constant_time_equal_string : (Text → List ℕ) → Text → Text → Bool
constant_time_equal_string encode a b = constant_time_equal (encode a) (encode b)

difference-zero :
    (diff : ℕ) (a b : List ℕ) → length a ≡ length b → difference diff a b ≡ 0 → (diff ≡ 0) × (a ≡ b)
unfolding difference
difference-zero diff [] [] n h = (h, refl)
difference-zero diff [] (y ∷ b) n h = absurd (omega arith)
difference-zero diff (x ∷ a) [] n h = absurd (omega arith)
difference-zero diff (x ∷ a) (y ∷ b) n h =
    let (changed, rest) = difference-zero (bit_or diff (bit_xor x y)) a b (omega arith) h in
    let (before, head) = bit_or-zero diff (bit_xor x y) changed in
    (before, cc (bit_xor-zero x y head, rest))

difference_self : (a : List ℕ) → difference 0 a a ≡ 0
unfolding difference
difference_self [] = refl
difference_self (x ∷ a) = rw (bit_xor_self x) (difference_self a)

-- The comparison without early exit decides equality of byte sequences.
pub constant_time_equal_iff : (a b : List ℕ) → (constant_time_equal a b ≡ true) ↔ (a ≡ b)
unfolding constant_time_equal
constant_time_equal_iff a b = (to, λ e. rw e (ground (arith, difference_self b)))
  where
    to : constant_time_equal a b ≡ true → a ≡ b
    to h = (difference-zero 0 a b (ground arith) (ground arith)).1
