-- ===== src/Prelude/Strings.antt =====
-- Text as the source sees it: a list of UTF-16 code units, compared by value.
use Prim.Native.Char.{code}
use Prim.Native.String.{String}
use Prim.Native.Nat.{ℕ}
use mathlib.Core.Path.{◌≡◌, refl, ap}
use mathlib.Core.Logic.{◌↔◌, ◌≢◌, inl, inr}
use mathlib.Core.Bool.{Bool, true, false, ◌&&◌, ◌||◌}
use mathlib.Core.List.{List, [], ◌∷◌, ◌++◌, append-nil, append_assoc}
use kody_celld.Prelude.Lists.{All}
use native.Mathlib.Omega.{arith}
use kody_celld.Prelude.Tests.{◌==◌, Bool-cases, if◌then◌else◌}

abbrev pub Text : Type 0
Text = List ℕ

-- The code units of a literal, which is ASCII wherever the model has one.
abbrev pub codes : String → Text
codes String.[] = []
codes (String.◌∷◌ c s) = code c ∷ codes s

-- `===` on strings.
unfoldable pub same : Text → Text → Bool
same [] [] = true
same (x ∷ xs) (y ∷ ys) = (x == y) && same xs ys
same _ _ = false

-- `words.includes(word)`, `new Set(words).has(word)` and SQL's `word IN (words)`.
unfoldable pub contains : Text → List Text → Bool
contains word [] = false
contains word (w ∷ ws) = same w word || contains word ws

-- `text.split(sep)` for a separator of one character; the word read so far is the second argument.
unfoldable pub split_from : (sep : ℕ) → Text → Text → List Text
split_from sep word [] = word ∷ []
split_from sep word (c ∷ cs) =
    let rest = split_from sep (if c == sep then [] else word ++ c ∷ []) cs in
    if c == sep then word ∷ rest else rest

pub same→eq : (a b : Text) → same a b ≡ true → a ≡ b
unfolding same
same→eq [] [] h = refl
same→eq [] (y ∷ ys) h = cc
same→eq (x ∷ xs) [] h = cc
same→eq (x ∷ xs) (y ∷ ys) h = ground (arith, same→eq xs ys)

pub same_refl : (a : Text) → same a a ≡ true
unfolding same
same_refl [] = refl
same_refl (x ∷ xs) = ground (arith, same_refl xs)

pub same_iff : (a b : Text) → (same a b ≡ true) ↔ (a ≡ b)
same_iff a b = (same→eq a b, λ e. rw e (same_refl b))

pub ne_of_same : (a b : Text) → same a b ≡ false → a ≢ b
ne_of_same a b h e = cc (h, (same_iff a b).1 e)

pub same_of_ne : (a b : Text) → a ≢ b → same a b ≡ false
same_of_ne a b h = elim (Bool-cases (same a b)) [ inl t ↦ absurd (h (same→eq a b t)) | inr f ↦ f ]

pub same_sym : (a b : Text) → same a b ≡ same b a
unfolding same
same_sym [] [] = refl
same_sym [] (y ∷ ys) = refl
same_sym (x ∷ xs) [] = refl
same_sym (x ∷ xs) (y ∷ ys) = ground (arith, same_sym xs ys)

-- `text.startsWith(prefix)` and `text.endsWith(suffix)`; every text ends with itself.
unfoldable pub starts_with : (prefix text : Text) → Bool
starts_with [] text = true
starts_with (p ∷ ps) [] = false
starts_with (p ∷ ps) (c ∷ cs) = (p == c) && starts_with ps cs

unfoldable pub ends_with : (suffix text : Text) → Bool
unfolding same
ends_with suffix [] = same [] suffix
ends_with suffix (c ∷ cs) = same (c ∷ cs) suffix || ends_with suffix cs

-- `text.includes(c)` for one character.
unfoldable pub has_char : ℕ → Text → Bool
has_char c [] = false
has_char c (d ∷ ds) = (d == c) || has_char c ds

-- What ends with a suffix is something in front of it.
pub ends_with-append :
    (suffix text : Text) → ends_with suffix text ≡ true → (front : Text) × (text ≡ front ++ suffix)
unfolding ends_with
ends_with-append suffix [] h = ([], same→eq [] suffix h)
ends_with-append suffix (c ∷ cs) h = elim (Bool-cases (same (c ∷ cs) suffix)) [
  | inl whole ↦ ([], same→eq (c ∷ cs) suffix whole)
  | inr part ↦
      let (front, e) = ends_with-append suffix cs (ground (arith, h, part)) in
      (c ∷ front, ap (λ t. c ∷ t) e)
]

-- No character of the text is the separator.
abbrev pub Lacks : ℕ → Text → Type 0
Lacks sep text = All (λ c. c ≢ sep) text

pub split_from-last :
    (sep : ℕ) (word a : Text) → Lacks sep a → split_from sep word a ≡ (word ++ a) ∷ []
unfolding split_from
split_from-last sep word [] p = rw (append-nil word) refl
split_from-last sep word (c ∷ a) p =
    let other : (c == sep) ≡ false = ground (arith, p.0) in
    rw (other, split_from-last sep (word ++ c ∷ []) a p.1, append_assoc word (c ∷ []) a) refl

pub split_from-first :
    (sep : ℕ) (word a rest : Text)
    → Lacks sep a
    → split_from sep word (a ++ sep ∷ rest) ≡ (word ++ a) ∷ split_from sep [] rest
unfolding split_from
split_from-first sep word [] rest p =
    let same_sep : (sep == sep) ≡ true = ground arith in rw (append-nil word, same_sep) refl
split_from-first sep word (c ∷ a) rest p =
    let other : (c == sep) ≡ false = ground (arith, p.0) in
    rw (other, split_from-first sep (word ++ c ∷ []) a rest p.1, append_assoc word (c ∷ []) a) refl

pub append-ends_with : (suffix front : Text) → ends_with suffix (front ++ suffix) ≡ true
unfolding ends_with same
append-ends_with [] [] = refl
append-ends_with (s ∷ ss) [] = ground (arith, same_refl ss)
append-ends_with suffix (c ∷ front) = ground (arith, append-ends_with suffix front)
