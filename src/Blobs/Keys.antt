-- ===== src/Blobs/Keys.antt =====
-- `normalizeBlobKey`, `normalizeBlobPrefix`, `objectKeyFor` and `userPrefix` of src/blobs/keys.ts.
use kody_celld.Prelude.{
  between, ℕ, Bool, true, false, not, ◌&&◌, ◌||◌, List, [], ◌∷◌, ◌++◌, Text, codes, contains,
  split_from, ltb, ◌==◌, length, if◌then◌else◌,
}
use kody_celld.Act.{Result, ok, err}

pub data Error : Type 0 where
  invalid_blob_key : Error

abbrev pub max_blob_key_length : ℕ
max_blob_key_length = 512

abbrev pub slash : ℕ
slash = 47

unfoldable pub has_code : ℕ → Text → Bool
has_code c [] = false
has_code c (d ∷ ds) = (c == d) || has_code c ds

-- The characters of the first class of `keyPattern`; the second class has `/` as well.
unfoldable pub is_key_char : ℕ → Bool
unfolding has_code
is_key_char c =
    between 65 90 c || between 97 122 c || between 48 57 c || has_code c (codes "!_.*'()@=,:+ -")

unfoldable pub all_key_chars : Text → Bool
unfolding is_key_char
all_key_chars [] = true
all_key_chars (c ∷ cs) = (is_key_char c || (c == slash)) && all_key_chars cs

-- `keyPattern.test(key)`
unfoldable pub key_pattern : Text → Bool
unfolding all_key_chars
key_pattern [] = false
key_pattern (c ∷ cs) = is_key_char c && all_key_chars cs

unfoldable pub ends_with_slash : Text → Bool
ends_with_slash [] = false
ends_with_slash (c ∷ []) = c == slash
ends_with_slash (c ∷ d ∷ cs) = ends_with_slash (d ∷ cs)

abbrev pub forbidden : List Text
forbidden = [] ∷ codes "." ∷ codes ".." ∷ []

-- `segments.some((segment) => segment === '' || segment === '.' || segment === '..')`
unfoldable pub some_forbidden : List Text → Bool
some_forbidden [] = false
some_forbidden (s ∷ ss) = contains s forbidden || some_forbidden ss

abbrev pub segments : Text → List Text
segments key = split_from slash [] key

abbrev pub is_empty_text : Text → Bool
is_empty_text [] = true
is_empty_text (c ∷ cs) = false

-- The checks on the trimmed key.
unfoldable pub check_key : Text → Result Error Text
unfolding key_pattern ends_with_slash some_forbidden
check_key key =
    if is_empty_text key
    then err invalid_blob_key
    else if ltb max_blob_key_length (length key)
    then err invalid_blob_key
    else if not (key_pattern key) || ends_with_slash key
    then err invalid_blob_key
    else if some_forbidden (segments key)
    then err invalid_blob_key
    else ok key

unfoldable pub normalize_blob_key : (trim : Text → Text) → Text → Result Error Text
unfolding check_key
normalize_blob_key trim input = check_key (trim input)

abbrev pub user_prefix : Text → Text
user_prefix user_id = codes "users/" ++ (user_id ++ slash ∷ [])

abbrev pub object_key_for : (user_id key : Text) → Text
object_key_for user_id key = codes "users/" ++ (user_id ++ slash ∷ key)
