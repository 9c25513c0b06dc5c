-- ===== src/Crypto/Masks.antt =====
-- The laws of `&` with a mask that a network prefix needs.
use Prim.Native.Nat.{bit_and, digits, bit_and-bitwise, min}
use native.Mathlib.Nat.{div-div-eq-div-mul, zero-div, mul_assoc, mul_comm, mul-one}
use native.Mathlib.Omega.{pow_step}
use kody_celld.Prelude.{
  ℕ, zero, suc, ◌-◌, ◌*◌, ◌/◌, ◌%◌, ◌^◌, ◌≤◌, ◌<◌, ◌≡◌, refl, sym, ap, ◌∙◌, arith,
}

pub pow_positive : (k : ℕ) → 1 ≤ 2 ^ k
pow_positive zero = omega arith
pow_positive (suc k) = omega (arith, pow_step 2 k, pow_positive k)

-- A number below `2 ^ p` keeps all of its digits under `p` ones.
under_ones : (n a p : ℕ) → a ≤ n → a < 2 ^ p → digits (λ c. 0) min n a (2 ^ p - 1) ≡ a
under_ones zero a p h low = omega arith
under_ones (suc n) zero p h low = refl
under_ones (suc n) (suc a) zero h low = absurd (omega arith)
under_ones (suc n) (suc a) (suc p) h low =
    let half = under_ones n (suc a / 2) p (omega arith) (omega (arith, pow_step 2 p)) in
    let ones : (2 ^ suc p - 1) / 2 ≡ 2 ^ p - 1 = omega (arith, pow_step 2 p, pow_positive p) in
    let odd : (2 ^ suc p - 1) % 2 ≡ 1 = omega (arith, pow_step 2 p, pow_positive p) in
    rw (ones, odd, half) (omega arith)

half_of : (m : ℕ) → 2 * m / 2 ≡ m
half_of m = omega arith

two_out : (m x : ℕ) → m * (2 * x) ≡ 2 * (m * x)
two_out m x = sym (mul_assoc m 2 x) ∙ ap (λ y. y * x) (mul_comm m 2) ∙ mul_assoc 2 m x

zero_blocks : (m : ℕ) → 0 ≡ 0 / m * m
zero_blocks m = rw (zero-div m) (omega arith)

under_mask :
    (n a p k : ℕ)
    → a ≤ n
    → a < 2 ^ p * 2 ^ k
    → digits (λ c. 0) min n a ((2 ^ p - 1) * 2 ^ k) ≡ a / 2 ^ k * 2 ^ k
under_mask n a p zero h low =
    ap (λ m. digits (λ c. 0) min n a m) (mul-one (2 ^ p - 1))
    ∙ under_ones n a p h (omega (arith, low))
    ∙ sym (omega arith)
under_mask zero zero p (suc k) h low = zero_blocks (2 ^ suc k)
under_mask zero (suc a) p (suc k) h low = absurd (omega arith)
under_mask (suc n) zero p (suc k) h low = zero_blocks (2 ^ suc k)
under_mask (suc n) (suc a) p (suc k) h low =
    let twice : (2 ^ p - 1) * 2 ^ suc k ≡ 2 * ((2 ^ p - 1) * 2 ^ k) =
      ap (λ x. (2 ^ p - 1) * x) (pow_step 2 k) ∙ two_out (2 ^ p - 1) (2 ^ k) in
    let room : 2 ^ p * 2 ^ suc k ≡ 2 * (2 ^ p * 2 ^ k) =
      ap (λ x. 2 ^ p * x) (pow_step 2 k) ∙ two_out (2 ^ p) (2 ^ k) in
    let half = under_mask n (suc a / 2) p k (omega arith) (omega (arith, room, low)) in
    rw (twice, half_of ((2 ^ p - 1) * 2 ^ k), half, div-div-eq-div-mul (suc a) 2 (2 ^ k))
      (rw (pow_step 2 k) (omega (arith, two_out (suc a / (2 * 2 ^ k)) (2 ^ k))))

-- The mask of a prefix keeps the digits in front of the last `k`.
pub bit_and-mask :
    (a p k : ℕ) → a < 2 ^ p * 2 ^ k → bit_and a ((2 ^ p - 1) * 2 ^ k) ≡ a / 2 ^ k * 2 ^ k
bit_and-mask a p k low = bit_and-bitwise a _ ∙ under_mask a a p k (omega arith) low
