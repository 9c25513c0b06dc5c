-- ===== src/Hosts/Ranges.antt =====
-- What a CIDR range holds, and the IPv4 addresses that IPv6 addresses carry.
use Prim.Native.Nat.{bit_and}
use native.Mathlib.Nat.{mul-div_cancel, one-mul, zero-mul, mul_assoc}
use native.Mathlib.Omega.{pow_step}
use kody_celld.Prelude.{
  ◌||◌, ℕ, zero, suc, ◌+◌, ◌-◌, ◌*◌, ◌/◌, ◌%◌, ◌^◌, ◌≤◌, ◌<◌, Bool, true, false, some, ◌==◌, ◌≡◌,
  ◌↔◌, sym, ap, ◌∙◌, arith, ==_iff,
}
use kody_celld.Crypto.Masks.{bit_and-mask, pow_positive}
use kody_celld.Hosts.Ip.{ip_of_v6, v4}
use kody_celld.Hosts.Private.{cidr_mask, in_cidr, is_private_v4, is_private_v6}

blocks_iff : (v n m : ℕ) → 1 ≤ m → ((v / m * m) ≡ (n / m * m)) ↔ (v / m ≡ n / m)
blocks_iff v n m h = (
  λ e. sym (mul-div_cancel (v / m) h) ∙ ap (λ x. x / m) e ∙ mul-div_cancel (n / m) h,
  λ e. ap (λ q. q * m) e,
)

pow_split : (p k : ℕ) → 2 ^ (p + k) ≡ 2 ^ p * 2 ^ k
pow_split zero k = let e : 0 + k ≡ k = omega arith in ap (λ n. 2 ^ n) e ∙ sym (one-mul (2 ^ k))
pow_split (suc p) k =
    ap (λ n. 2 ^ n) (omega arith)
    ∙ pow_step 2 (p + k)
    ∙ ap (λ x. 2 * x) (pow_split p k)
    ∙ sym (mul_assoc 2 (2 ^ p) (2 ^ k))
    ∙ ap (λ x. x * 2 ^ k) (sym (pow_step 2 p))

cidr_mask_lem :
    (prefix width : ℕ) → cidr_mask prefix width ≡ (2 ^ prefix - 1) * 2 ^ (width - prefix)
unfolding cidr_mask
cidr_mask_lem zero width = sym (zero-mul (2 ^ (width - 0)))
cidr_mask_lem (suc p) width = ground arith

masked :
    (a prefix width : ℕ)
    → prefix ≤ width
    → a < 2 ^ width
    → bit_and a (cidr_mask prefix width) ≡ a / 2 ^ (width - prefix) * 2 ^ (width - prefix)
masked a prefix width h low =
    let size : 2 ^ width ≡ 2 ^ prefix * 2 ^ (width - prefix) =
      ap (λ n. 2 ^ n) (omega arith) ∙ pow_split prefix (width - prefix) in
    ap (bit_and a) (cidr_mask_lem prefix width)
    ∙ bit_and-mask a prefix (width - prefix) (omega (arith, size, low))

-- An address lies in a range if and only if the two agree in front of the last `width - prefix` bits,
-- for a prefix of at most the width and addresses of that width.
pub in_cidr_iff :
    (value network prefix width : ℕ)
    → prefix ≤ width
    → value < 2 ^ width
    → network < 2 ^ width
    → (in_cidr value network prefix width ≡ true)
      ↔ (value / 2 ^ (width - prefix) ≡ network / 2 ^ (width - prefix))
unfolding in_cidr
in_cidr_iff value network prefix width h low high =
    let blocks = blocks_iff value network (2 ^ (width - prefix)) (pow_positive (width - prefix)) in
    let a = masked value prefix width h low in
    let b = masked network prefix width h high in
    (λ e. blocks.0 (sym a ∙ (==_iff _ _).0 e ∙ b), λ e. (==_iff _ _).1 (a ∙ blocks.1 e ∙ sym b))

-- The top 96 bits of an address that carries an IPv4 address in its last 32.
abbrev carries_low : ℕ → Bool
carries_low top = (top == 0) || (top == 0xffff0000) || (top == 0x64ff9b * 2 ^ 64)

low_carried :
    (address value : ℕ)
    → carries_low (address / 2 ^ 32) ≡ true
    → address % 2 ^ 32 ≡ value
    → is_private_v6 address ≡ is_private_v4 value
unfolding is_private_v6
low_carried address value top low = rw top (ap is_private_v4 low)

middle_carried :
    (address value : ℕ)
    → carries_low (address / 2 ^ 32) ≡ false
    → (address / 2 ^ 112 == 0x2002) ≡ true
    → address / 2 ^ 80 % 2 ^ 32 ≡ value
    → is_private_v6 address ≡ is_private_v4 value
unfolding is_private_v6
middle_carried address value top first middle = rw (top, first) (ap is_private_v4 middle)

-- An IPv6 address is private exactly if the IPv4 address that it carries is: in the forms
-- `::a.b.c.d`, IPv4-translated, NAT64 and 6to4, the latter whatever its last 80 bits are; an
-- IPv4-mapped address is read as that IPv4 address.
pub embedded_v4 :
    (value rest : ℕ)
    → value < 2 ^ 32
    → rest < 2 ^ 80
    → (is_private_v6 value ≡ is_private_v4 value)
      × (is_private_v6 (0xffff0000 * 2 ^ 32 + value) ≡ is_private_v4 value)
      × (is_private_v6 (0x64ff9b * 2 ^ 96 + value) ≡ is_private_v4 value)
      × (is_private_v6 (0x2002 * 2 ^ 112 + value * 2 ^ 80 + rest) ≡ is_private_v4 value)
      × (ip_of_v6 (some (0xffff * 2 ^ 32 + value)) ≡ some (record { version = v4; value = value }))
embedded_v4 value rest h k = (
  low_carried value value (ground (arith, h)) (omega (arith, h)),
  low_carried (0xffff0000 * 2 ^ 32 + value) value (ground (arith, h)) (omega (arith, h)),
  low_carried (0x64ff9b * 2 ^ 96 + value) value (ground (arith, h)) (omega (arith, h)),
  middle_carried (0x2002 * 2 ^ 112 + value * 2 ^ 80 + rest) value (ground (arith, h, k))
      (ground (arith, h, k)) (omega (arith, h, k)),
  ground (arith, h),
)
