-- ===== src/Crypto/Bits.antt =====
-- The laws of `|` and `^` that an accumulated difference needs.
use Prim.Native.Nat.{bit_or, bit_xor, digits, differ, bit_or-bitwise, bit_xor-bitwise, max}
use kody_celld.Prelude.{ℕ, zero, suc, ◌/◌, ◌%◌, ◌≤◌, ◌≡◌, refl, sym, ◌∙◌, arith}

or_digits-zero : (n a b : ℕ) → a ≤ n → digits (λ b. b) max n a b ≡ 0 → (a ≡ 0) × (b ≡ 0)
or_digits-zero zero a b h e = (omega arith, e)
or_digits-zero (suc n) zero b h e = (refl, e)
or_digits-zero (suc n) (suc a) b h e =
    let ih = or_digits-zero n (suc a / 2) (b / 2) (omega arith) (omega arith) in
    absurd (omega (arith, ih))

-- `a | b` is zero only if both are.
pub bit_or-zero : (a b : ℕ) → bit_or a b ≡ 0 → (a ≡ 0) × (b ≡ 0)
bit_or-zero a b e = or_digits-zero a a b (omega arith) (sym (bit_or-bitwise a b) ∙ e)

differ-zero : (x y : ℕ) → differ x y ≡ 0 → x ≡ y
differ-zero zero y e = sym e
differ-zero (suc x) zero e = e
differ-zero (suc x) (suc y) e = omega (arith, differ-zero x y e)

differ_self : (x : ℕ) → differ x x ≡ 0
differ_self zero = refl
differ_self (suc x) = differ_self x

xor_digits-zero : (n a b : ℕ) → a ≤ n → digits (λ b. b) differ n a b ≡ 0 → a ≡ b
xor_digits-zero zero a b h e = omega arith
xor_digits-zero (suc n) zero b h e = sym e
xor_digits-zero (suc n) (suc a) b h e =
    let low = differ-zero (suc a % 2) (b % 2) (omega arith) in
    let high = xor_digits-zero n (suc a / 2) (b / 2) (omega arith) (omega arith) in
    omega (arith, high, low)

xor_digits_self : (n a : ℕ) → a ≤ n → digits (λ b. b) differ n a a ≡ 0
xor_digits_self zero a h = omega arith
xor_digits_self (suc n) zero h = refl
xor_digits_self (suc n) (suc a) h =
    omega (arith, xor_digits_self n (suc a / 2) (omega arith), differ_self (suc a % 2))

-- `a ^ b` is zero exactly if the two are equal.
pub bit_xor-zero : (a b : ℕ) → bit_xor a b ≡ 0 → a ≡ b
bit_xor-zero a b e = xor_digits-zero a a b (omega arith) (sym (bit_xor-bitwise a b) ∙ e)

pub bit_xor_self : (a : ℕ) → bit_xor a a ≡ 0
bit_xor_self a = bit_xor-bitwise a a ∙ xor_digits_self a a (omega arith)
