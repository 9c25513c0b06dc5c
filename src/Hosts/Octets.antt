-- ===== src/Hosts/Octets.antt =====
-- IPv4 addresses are read back from their texts.
use kody_celld.Prelude.{
  Lacks, split_from-first, split_from-last, ℕ, ◌+◌, ◌*◌, ◌/◌, ◌%◌, ◌^◌, ◌<◌, some, [], ◌∷◌, ◌++◌,
  Text, split_from, ltb, ◌≡◌, refl, ap, ◌∙◌, arith, inl, inr, Bool-cases,
}
use kody_celld.Hosts.Ip.{decimal, octet, octets, parse_ipv4, decimal_text, format_ipv4}

decimal-decimal_text : (n : ℕ) → n < 1000 → decimal (decimal_text n) ≡ some n
unfolding decimal
decimal-decimal_text n h = elim (Bool-cases (ltb n 10)) [
  | inl small ↦ rw small (ground (arith, small))
  | inr more ↦ elim (Bool-cases (ltb n 100)) [
    | inl two ↦ rw (more, two) (ground (arith, two, more))
    | inr three ↦ rw (more, three) (ground (arith, three, more))
  ]
]

decimal_text-Lacks : (n : ℕ) → n < 1000 → Lacks 46 (decimal_text n)
decimal_text-Lacks n h = elim (Bool-cases (ltb n 10)) [
  | inl small ↦ rw small (λ e. omega (arith, e), tt)
  | inr more ↦ elim (Bool-cases (ltb n 100)) [
    | inl two ↦ rw (more, two) (λ e. omega (arith, e), (λ e. omega (arith, e), tt))
    | inr three ↦
        rw (more, three)
          (λ e. omega (arith, e), (λ e. omega (arith, e), (λ e. omega (arith, e), tt)))
  ]
]

split-four :
    (a b c d : Text)
    → Lacks 46 a
    → Lacks 46 b
    → Lacks 46 c
    → Lacks 46 d
    → split_from 46 [] (a ++ 46 ∷ (b ++ 46 ∷ (c ++ 46 ∷ d))) ≡ a ∷ b ∷ c ∷ d ∷ []
split-four a b c d p q r s =
    rw
      (
        split_from-first 46 [] a (b ++ 46 ∷ (c ++ 46 ∷ d)) p,
        split_from-first 46 [] b (c ++ 46 ∷ d) q,
        split_from-first 46 [] c d r,
        split_from-last 46 [] d s,
      )
      refl

octet-decimal_text : (n : ℕ) → n < 256 → octet (decimal (decimal_text n)) ≡ some n
octet-decimal_text n h = rw (decimal-decimal_text n (omega arith)) (ground (arith, h))

four_octets :
    (a b c d : Text) (w x y z : ℕ)
    → Lacks 46 a × (octet (decimal a) ≡ some w)
    → Lacks 46 b × (octet (decimal b) ≡ some x)
    → Lacks 46 c × (octet (decimal c) ≡ some y)
    → Lacks 46 d × (octet (decimal d) ≡ some z)
    → parse_ipv4 (a ++ 46 ∷ (b ++ 46 ∷ (c ++ 46 ∷ d)))
      ≡ some ((((0 * 256 + w) * 256 + x) * 256 + y) * 256 + z)
unfolding parse_ipv4 octets
four_octets a b c d w x y z (p, e) (q, f) (r, g) (s, h) =
    rw (split-four a b c d p q r s, e, f, g, h) refl

printed :
    (n : ℕ) → n < 256 → Lacks 46 (decimal_text n) × (octet (decimal (decimal_text n)) ≡ some n)
printed n h = (decimal_text-Lacks n (omega arith), octet-decimal_text n h)

-- An IPv4 address, a number below 2^32, is read back from the text that it is formatted as.
pub parse_ipv4-format_ipv4 :
    (value : ℕ) → value < 2 ^ 32 → parse_ipv4 (format_ipv4 value) ≡ some value
unfolding format_ipv4
parse_ipv4-format_ipv4 value h =
    four_octets _ _ _ _ _ _ _ _ (printed (value / 2 ^ 24 % 256) (omega arith))
      (printed (value / 2 ^ 16 % 256) (omega arith)) (printed (value / 2 ^ 8 % 256) (omega arith))
      (printed (value % 256) (omega arith))
    ∙ ap some (omega (arith, h))
