-- ===== src/Packages/Paths.antt =====
-- `normalizeModulePath` of src/packages/manifest.ts.
use kody_celld.Prelude.{
  ℕ, List, [], ◌∷◌, ◌++◌, Text, codes, same, split_from, ◌==◌, map, if◌then◌else◌,
}
use kody_celld.Act.{Result, ok, err}
use kody_celld.Results.{◌>>=◌}

pub data ManifestError : Type 0 where
  invalid_path : ManifestError
  invalid_manifest : ManifestError

abbrev pub separator : ℕ
separator = 47

-- `replaceAll('\\', '/')`, for one character.
abbrev pub slash_of : ℕ → ℕ
slash_of c = if c == 92 then separator else c

-- The leading `./` and the leading `/`, each removed once.
unfoldable pub without_dot_slash : Text → Text
without_dot_slash [] = []
without_dot_slash (c ∷ []) = c ∷ []
without_dot_slash (c ∷ d ∷ cs) =
    if c == 46 then (if d == separator then cs else c ∷ d ∷ cs) else c ∷ d ∷ cs

unfoldable pub without_slash : Text → Text
without_slash [] = []
without_slash (c ∷ cs) = if c == separator then cs else c ∷ cs

pub data Segment : Type 0 where
  skipped : Segment
  up : Segment
  part : Segment

unfoldable pub segment_of : Text → Segment
unfolding same
segment_of s =
    if same s []
    then skipped
    else if same s (codes ".")
    then skipped
    else if same s (codes "..")
    then up
    else part

-- The list without its last member, where `x` is its first: `parts.pop()`.
unfoldable pub popped : Text → List Text → List Text
popped x [] = []
popped x (y ∷ ys) = x ∷ popped y ys

abbrev pub add_segment : Segment → Text → List Text → Result ManifestError (List Text)
add_segment skipped s parts = ok parts
add_segment up s [] = err invalid_path
add_segment up s (p ∷ ps) = ok (popped p ps)
add_segment part s parts = ok (parts ++ s ∷ [])

unfoldable pub walk : List Text → (parts : List Text) → Result ManifestError (List Text)
unfolding segment_of
walk [] parts = ok parts
walk (s ∷ ss) parts = add_segment (segment_of s) s parts >>= (λ next. walk ss next)

-- `parts.join('/')`
unfoldable pub join_parts : List Text → Text
join_parts [] = []
join_parts (w ∷ []) = w
join_parts (w ∷ v ∷ ws) = w ++ separator ∷ join_parts (v ∷ ws)

abbrev pub joined : List Text → Result ManifestError Text
joined [] = err invalid_path
joined (w ∷ ws) = ok (join_parts (w ∷ ws))

abbrev pub segments_of : Text → List Text
segments_of text = split_from separator [] (without_slash (without_dot_slash (map slash_of text)))

unfoldable pub normalize_module_path : (trim : Text → Text) → Text → Result ManifestError Text
unfolding without_dot_slash without_slash walk join_parts
normalize_module_path trim path = walk (segments_of (trim path)) [] >>= (λ parts. joined parts)
