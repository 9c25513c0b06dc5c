-- ===== src/Packages/Again.antt =====
-- A module path that was normalized is normal.
use kody_celld.Prelude.{
  false, List, [], ◌∷◌, ◌++◌, Text, same, ◌==◌, map, ◌≡◌, ◌≢◌, refl, ap, sym, ◌∙◌, subst, arith,
  inl, inr, All, All-append, Lacks, Bool-cases,
}
use mathlib.Core.List.{append-nil, append_assoc}
use kody_celld.Act.{ok, ok-injective}
use kody_celld.Results.{passed}
use kody_celld.Packages.Paths.{
  separator, slash_of, segment_of, walk, join_parts, joined, segments_of, without_slash,
  without_dot_slash, normalize_module_path,
}
use kody_celld.Packages.Normal.{IsPart, walk-All, segments_of-IsClean, split_from-join_parts}

slashes-same : (text : Text) → Lacks 92 text → map slash_of text ≡ text
slashes-same [] h = refl
slashes-same (c ∷ cs) h =
    let other : (c == 92) ≡ false = ground (arith, h.0) in rw (other, slashes-same cs h.1) refl

join_parts-Lacks :
    (w : Text) (ws : List Text) → All IsPart (w ∷ ws) → Lacks 92 (join_parts (w ∷ ws))
unfolding join_parts
join_parts-Lacks w [] h = h.0.1.1
join_parts-Lacks w (v ∷ ws) h =
    All-append (λ c. c ≢ 92) w (separator ∷ join_parts (v ∷ ws)) h.0.1.1
      (omega arith, join_parts-Lacks v ws h.1)

-- A text whose first name is a part has no leading `./` and no leading slash.
dot_slash-same :
    (w rest : Text) → IsPart w → without_dot_slash (w ++ separator ∷ rest) ≡ w ++ separator ∷ rest
unfolding without_dot_slash segment_of same
dot_slash-same [] rest h = absurd (cc h.0)
dot_slash-same (c ∷ []) rest h = elim (Bool-cases (c == 46)) [
  | inr f ↦ rw f refl
  | inl t ↦ absurd (ground (arith, h.0, t))
]
dot_slash-same (c ∷ d ∷ cs) rest h =
    let other : (d == separator) ≡ false = ground (arith, h.1.0.1.0) in
    elim (Bool-cases (c == 46)) [ inl t ↦ rw (t, other) refl | inr f ↦ rw f refl ]

dot_slash-last : (w : Text) → IsPart w → without_dot_slash w ≡ w
unfolding without_dot_slash
dot_slash-last [] h = refl
dot_slash-last (c ∷ []) h = refl
dot_slash-last (c ∷ d ∷ cs) h =
    let other : (d == separator) ≡ false = ground (arith, h.1.0.1.0) in
    elim (Bool-cases (c == 46)) [ inl t ↦ rw (t, other) refl | inr f ↦ rw f refl ]

slash-same : (w rest : Text) → IsPart w → without_slash (w ++ rest) ≡ w ++ rest
unfolding without_slash segment_of same
slash-same [] rest h = absurd (cc h.0)
slash-same (c ∷ cs) rest h =
    let other : (c == separator) ≡ false = ground (arith, h.1.0.0) in rw other refl

leading-same :
    (w : Text) (ws : List Text)
    → IsPart w
    → without_slash (without_dot_slash (join_parts (w ∷ ws))) ≡ join_parts (w ∷ ws)
unfolding join_parts
leading-same w [] h =
    ap without_slash (dot_slash-last w h)
    ∙ subst (λ t. without_slash t ≡ t) (append-nil w) (slash-same w [] h)
leading-same w (v ∷ ws) h =
    ap without_slash (dot_slash-same w (join_parts (v ∷ ws)) h)
    ∙ slash-same w (separator ∷ join_parts (v ∷ ws)) h

walk-parts : (ss parts : List Text) → All IsPart ss → walk ss parts ≡ ok (parts ++ ss)
unfolding walk
walk-parts [] parts h = rw (append-nil parts) refl
walk-parts (s ∷ ss) parts h =
    rw (h.0.0, walk-parts ss (parts ++ s ∷ []) h.1, append_assoc parts (s ∷ []) ss) refl

segments_of-join_parts :
    (w : Text) (ws : List Text) → All IsPart (w ∷ ws) → segments_of (join_parts (w ∷ ws)) ≡ w ∷ ws
segments_of-join_parts w ws h =
    rw
      (
        slashes-same (join_parts (w ∷ ws)) (join_parts-Lacks w ws h),
        leading-same w ws h.0,
        split_from-join_parts w ws h.0.1.0 h.1,
      )
      refl

joined-again :
    (trim : Text → Text) (parts : List Text) (path : Text)
    → All IsPart parts
    → joined parts ≡ ok path
    → trim path ≡ path
    → normalize_module_path trim path ≡ ok path
unfolding normalize_module_path
joined-again trim [] path h got e = absurd (cc got)
joined-again trim (w ∷ ws) path h got e =
    let same_path : join_parts (w ∷ ws) ≡ path = ok-injective _ _ got in
    rw (e, sym same_path, segments_of-join_parts w ws h, walk-parts (w ∷ ws) [] h) refl

-- A path that was accepted is a path that is kept: normalizing it again gives it back, where it has no
-- blanks at its ends.
pub normalized_again :
    (trim : Text → Text) (text path : Text)
    → normalize_module_path trim text ≡ ok path
    → trim path ≡ path
    → normalize_module_path trim path ≡ ok path
normalized_again trim text path got e =
    passed (normalize_module_path trim path ≡ ok path) (walk (segments_of (trim text)) [])
      (λ parts. joined parts) path
      (λ parts first rest.
        joined-again trim parts path
          (walk-All (segments_of (trim text)) [] parts (segments_of-IsClean (trim text)) tt first)
          rest e)
      (unfold normalize_module_path in got)
