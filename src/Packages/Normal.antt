-- ===== src/Packages/Normal.antt =====
-- What a normalized module path is.
use kody_celld.Prelude.{
  List, [], ◌∷◌, ◌++◌, Text, codes, same, split_from, ◌==◌, map, ◌≡◌, ◌≢◌, refl, ap, ◌∙◌, subst,
  arith, inl, inr, All, All-append, All-weaken, Lacks, Bool-cases, split_from-first,
  split_from-last,
}
use kody_celld.Act.{ok, ok-injective}
use kody_celld.Results.{passed}
use kody_celld.Packages.Paths.{
  separator, slash_of, Segment, skipped, up, part, segment_of, popped, add_segment, walk,
  join_parts, joined, segments_of, without_slash, without_dot_slash, normalize_module_path,
}

-- A name between slashes: neither empty nor `.` nor `..`.
abbrev pub IsClean : Text → Type 0
IsClean s = Lacks separator s × Lacks 92 s

abbrev pub IsPart : Text → Type 0
IsPart s = (segment_of s ≡ part) × IsClean s

-- The pieces of a text without backslashes have neither separators nor backslashes.
split_from-IsClean :
    (word text : Text) → IsClean word → Lacks 92 text → All IsClean (split_from separator word text)
unfolding split_from
split_from-IsClean word [] h k = (h, tt)
split_from-IsClean word (c ∷ cs) h k = elim (Bool-cases (c == separator)) [
  | inl t ↦ rw t (h, split_from-IsClean [] cs (tt, tt) k.1)
  | inr f ↦ rw f (
      split_from-IsClean (word ++ c ∷ []) cs
        (
          All-append (λ d. d ≢ separator) word (c ∷ []) h.0 (ground (arith, f), tt),
          All-append (λ d. d ≢ 92) word (c ∷ []) h.1 (k.0, tt),
        )
        k.1)
]

slashes-Lacks : (text : Text) → Lacks 92 (map slash_of text)
slashes-Lacks [] = tt
slashes-Lacks (c ∷ cs) = (ground arith, slashes-Lacks cs)

without_dot_slash-Lacks : (text : Text) → Lacks 92 text → Lacks 92 (without_dot_slash text)
unfolding without_dot_slash
without_dot_slash-Lacks [] h = tt
without_dot_slash-Lacks (c ∷ []) h = h
without_dot_slash-Lacks (c ∷ d ∷ cs) h = elim (Bool-cases (c == 46)) [
  | inr f ↦ rw f h
  | inl t ↦ elim (Bool-cases (d == separator)) [ inl u ↦ rw (t, u) h.1.1 | inr f ↦ rw (t, f) h ]
]

without_slash-Lacks : (text : Text) → Lacks 92 text → Lacks 92 (without_slash text)
unfolding without_slash
without_slash-Lacks [] h = tt
without_slash-Lacks (c ∷ cs) h = elim (Bool-cases (c == separator)) [
  | inl t ↦ rw t h.1
  | inr f ↦ rw f h
]

pub segments_of-IsClean : (text : Text) → All IsClean (segments_of text)
segments_of-IsClean text =
    split_from-IsClean [] (without_slash (without_dot_slash (map slash_of text))) (tt, tt)
      (without_slash-Lacks (without_dot_slash (map slash_of text))
        (without_dot_slash-Lacks (map slash_of text) (slashes-Lacks text)))

popped-All : (P : Text → Type 0) (x : Text) (xs : List Text) → P x → All P xs → All P (popped x xs)
unfolding popped
popped-All P x [] p h = tt
popped-All P x (y ∷ ys) p h = (p, popped-All P y ys h.0 h.1)

add_segment-All :
    (k : Segment) (s : Text) (parts next : List Text)
    → segment_of s ≡ k
    → IsClean s
    → All IsPart parts
    → add_segment k s parts ≡ ok next
    → All IsPart next
add_segment-All skipped s parts next e lacks h got = subst (All IsPart) (ok-injective _ _ got) h
add_segment-All up s [] next e lacks h got = absurd (cc got)
add_segment-All up s (p ∷ ps) next e lacks h got =
    subst (All IsPart) (ok-injective _ _ got) (popped-All IsPart p ps h.0 h.1)
add_segment-All part s parts next e lacks h got =
    subst (All IsPart) (ok-injective _ _ got) (All-append IsPart parts (s ∷ []) h ((e, lacks), tt))

pub walk-All :
    (ss parts out : List Text)
    → All IsClean ss
    → All IsPart parts
    → walk ss parts ≡ ok out
    → All IsPart out
unfolding walk
walk-All [] parts out lacks h got = subst (All IsPart) (ok-injective _ _ got) h
walk-All (s ∷ ss) parts out lacks h got =
    passed (All IsPart out) (add_segment (segment_of s) s parts) (λ next. walk ss next) out
      (λ next first rest.
        walk-All ss next out lacks.1
          (add_segment-All (segment_of s) s parts next refl lacks.0 h first) rest)
      got

-- Joined names split into the names again.
pub split_from-join_parts :
    (w : Text) (ws : List Text)
    → Lacks separator w
    → All IsPart ws
    → split_from separator [] (join_parts (w ∷ ws)) ≡ w ∷ ws
unfolding join_parts
split_from-join_parts w [] h k = split_from-last separator [] w h
split_from-join_parts w (v ∷ ws) h k =
    split_from-first separator [] w (join_parts (v ∷ ws)) h
    ∙ ap (λ t. w ∷ t) (split_from-join_parts v ws k.0.1.0 k.1)

-- A path that stays where it is: none of the names between its slashes is empty, `.` or `..`.
abbrev pub IsNormal : Text → Type 0
IsNormal path =
    All (λ s. (s ≢ []) × (s ≢ codes ".") × (s ≢ codes "..")) (split_from separator [] path)

named-part : (s : Text) → IsPart s → (s ≢ []) × (s ≢ codes ".") × (s ≢ codes "..")
unfolding segment_of same
named-part s h = (
  λ e. cc (subst (λ t. segment_of t ≡ part) e h.0),
  λ e. cc (subst (λ t. segment_of t ≡ part) e h.0),
  λ e. cc (subst (λ t. segment_of t ≡ part) e h.0),
)

joined-IsNormal :
    (parts : List Text) (path : Text) → All IsPart parts → joined parts ≡ ok path → IsNormal path
joined-IsNormal [] path h got = absurd (cc got)
joined-IsNormal (w ∷ ws) path h got =
    subst IsNormal (ok-injective _ _ got)
      (rw (split_from-join_parts w ws h.0.1.0 h.1) (All-weaken IsPart _ (w ∷ ws) named-part h))

-- A path that is accepted names something inside the package.
pub normalize_module_path-IsNormal :
    (trim : Text → Text) (text path : Text)
    → normalize_module_path trim text ≡ ok path
    → IsNormal path
unfolding normalize_module_path
normalize_module_path-IsNormal trim text path got =
    passed (IsNormal path) (walk (segments_of (trim text)) []) (λ parts. joined parts) path
      (λ parts first rest.
        joined-IsNormal parts path
          (walk-All (segments_of (trim text)) [] parts (segments_of-IsClean (trim text)) tt first)
          rest)
      got
