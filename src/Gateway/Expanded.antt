-- ===== src/Gateway/Expanded.antt =====
-- What `replaceAll` puts in for a placeholder that occurs once.
use kody_celld.Prelude.{
  ℕ, true, false, ◌-◌, [], ◌∷◌, ◌++◌, ◌≡◌, refl, ap, arith, ◌∙◌, Text, Lacks, length, drop,
  starts_with, ◌==◌,
}
use mathlib.Core.List.{append_assoc, append-nil}
use kody_celld.Gateway.Replace.{expand, replace_from, replace_all}

module _ (matched before behind : Text) where
  pub expand-front :
      (front : Text) (c : ℕ) (cs : Text)
      → Lacks 36 front
      → expand matched before behind (front ++ c ∷ cs)
        ≡ front ++ expand matched before behind (c ∷ cs)
  unfolding expand
  expand-front [] c cs h = refl
  expand-front (f ∷ []) c cs h = let e : (f == 36) ≡ false = ground (arith, h.0) in rw e refl
  expand-front (f ∷ g ∷ front) c cs h =
      let e : (f == 36) ≡ false = ground (arith, h.0) in
      rw e (ap (λ t. f ∷ t) (expand-front (g ∷ front) c cs h.1))

  pub expand-plain : (value : Text) → Lacks 36 value → expand matched before behind value ≡ value
  unfolding expand
  expand-plain [] h = refl
  expand-plain (c ∷ []) h = refl
  expand-plain (c ∷ d ∷ cs) h =
      let e : (c == 36) ≡ false = ground (arith, h.0) in
      rw e (ap (λ t. c ∷ t) (expand-plain (d ∷ cs) h.1))

  -- Two dollars come out as one.
  pub expand-dollars :
      (front rest : Text)
      → Lacks 36 front
      → Lacks 36 rest
      → expand matched before behind (front ++ 36 ∷ 36 ∷ rest) ≡ front ++ 36 ∷ rest
  expand-dollars front rest h k =
      expand-front front 36 (36 ∷ rest) h
      ∙ ap (λ t. front ++ t) (unfold expand in ap (λ t. 36 ∷ t) (expand-plain rest k))

starts_with-append : (p rest : Text) → starts_with p (p ++ rest) ≡ true
unfolding starts_with
starts_with-append [] rest = refl
starts_with-append (c ∷ p) rest = ground (arith, starts_with-append p rest)

drop-append : (p rest : Text) → drop (length p) (p ++ rest) ≡ rest
drop-append [] rest = refl
drop-append (c ∷ p) rest = drop-append p rest

module _ (o : ℕ) (p value : Text) where
  -- The characters of a match are passed over.
  replace_from-skip :
      (q before rest : Text)
      → replace_from (o ∷ p) value (length q) before (q ++ rest)
        ≡ replace_from (o ∷ p) value 0 (before ++ q) rest
  unfolding replace_from
  replace_from-skip [] before rest = rw (append-nil before) refl
  replace_from-skip (c ∷ q) before rest =
      rw (replace_from-skip q (before ++ c ∷ []) rest, append_assoc before (c ∷ []) q) refl

  replace_from-none :
      (before text : Text) → Lacks o text → replace_from (o ∷ p) value 0 before text ≡ text
  unfolding replace_from starts_with
  replace_from-none before [] h = refl
  replace_from-none before (c ∷ text) h =
      let e : (o == c) ≡ false = ground (arith, h.0) in
      rw (e, replace_from-none (before ++ c ∷ []) text h.1) refl

  replace_from-front :
      (front before text : Text)
      → Lacks o front
      → replace_from (o ∷ p) value 0 before (front ++ text)
        ≡ front ++ replace_from (o ∷ p) value 0 (before ++ front) text
  unfolding replace_from starts_with
  replace_from-front [] before text h = rw (append-nil before) refl
  replace_from-front (c ∷ front) before text h =
      let e : (o == c) ≡ false = ground (arith, h.0) in
      rw
        (
          e,
          replace_from-front front (before ++ c ∷ []) text h.1,
          append_assoc before (c ∷ []) front,
        )
        refl

  replace_from-hit :
      (before rest : Text)
      → replace_from (o ∷ p) value 0 before ((o ∷ p) ++ rest)
        ≡ expand (o ∷ p) before rest value ++ replace_from (o ∷ p) value 0 (before ++ o ∷ p) rest
  unfolding replace_from
  replace_from-hit before rest =
      let passed : length (o ∷ p) - 1 ≡ length p = omega arith in
      rw
        (
          starts_with-append (o ∷ p) rest,
          drop-append (o ∷ p) rest,
          passed,
          replace_from-skip p (before ++ o ∷ []) rest,
          append_assoc before (o ∷ []) p,
        )
        refl

  pub replace_all-once :
      (front rest : Text)
      → Lacks o front
      → Lacks o rest
      → replace_all (o ∷ p) value (front ++ ((o ∷ p) ++ rest))
        ≡ front ++ (expand (o ∷ p) front rest value ++ rest)
  unfolding replace_all
  replace_all-once front rest h k =
      rw
        (
          replace_from-front front [] ((o ∷ p) ++ rest) h,
          replace_from-hit front rest,
          replace_from-none (front ++ o ∷ p) rest k,
        )
        refl
