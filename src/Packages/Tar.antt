-- ===== src/Packages/Tar.antt =====
-- The fields of a tar header and of a pax extended header. An array of bytes from an offset on is a
-- suffix of the list.
use kody_celld.Prelude.{
  ℕ, zero, suc, ◌+◌, ◌-◌, ◌*◌, Bool, true, false, ◌&&◌, Option, none, some, List, [], ◌∷◌, Text,
  codes, same, between, ◌==◌, length, take, drop, if◌then◌else◌,
}
use kody_celld.Act.{Result, ok, err}
use kody_celld.Integers.{ℤ, pos, negsuc}

-- `out_of_fuel` is no result of the code: it stands for a loop that is not known to end, as that of
-- `paxRecords` is not once its offset is no integer.
pub data TarError : Type 0 where
  malformed_header truncated too_many_files too_large out_of_fuel : TarError

pub record TarEntry : Type 0 where
  pub path : Text
  pub bytes : List ℕ

pub record TarLimits : Type 0 where
  pub max_files : ℕ
  pub max_total_bytes : ℕ

-- What `Number` makes of a text.
pub data JsNumber : Type 0 where
  not_finite : JsNumber
  integer : ℤ → JsNumber
  fraction : (negative : Bool) → JsNumber

-- `decode` is TextDecoder's, `trim` that of strings, `number` the function `Number`.
pub record TextPlatform : Type 0 where
  pub decode : List ℕ → Text
  pub trim : Text → Text
  pub number : Text → JsNumber

abbrev pub block : ℕ
block = 512

unfoldable pub until : (stop : ℕ) → List ℕ → List ℕ
until stop [] = []
until stop (b ∷ bytes) = let rest = until stop bytes in if b == stop then [] else b ∷ rest

unfoldable pub all_zero : List ℕ → Bool
all_zero [] = true
all_zero (b ∷ bytes) = (b == 0) && all_zero bytes

-- `isZeroBlock` for a rest that has a block
abbrev pub is_zero_block : List ℕ → Bool
is_zero_block rest = all_zero (take block rest)

-- The digits in front of a text, where `value` is that of the digits so far; `none` is NaN.
unfoldable pub octal_digits : (value : Option ℕ) → Text → Option ℕ
octal_digits value [] = value
octal_digits none (c ∷ cs) =
    let rest = octal_digits (some (c - 48)) cs in if between 48 55 c then rest else none
octal_digits (some n) (c ∷ cs) =
    let rest = octal_digits (some (n * 8 + (c - 48))) cs in if between 48 55 c then rest else some n

abbrev pub negated : Option ℕ → Option ℕ
negated none = none
negated (some zero) = some 0
negated (some (suc n)) = none

-- `parseInt(text, 8)`, where `none` is NaN or a negative number.
unfoldable pub parse_octal : Text → Option ℕ
unfolding octal_digits
parse_octal [] = none
parse_octal (c ∷ cs) =
    if c == 45
    then negated (octal_digits none cs)
    else if c == 43
    then octal_digits none cs
    else octal_digits none (c ∷ cs)

abbrev pub or_malformed : Option ℕ → Result TarError ℕ
or_malformed none = err malformed_header
or_malformed (some n) = ok n

abbrev pub octal_of_text : Text → Result TarError ℕ
octal_of_text [] = ok 0
octal_of_text (c ∷ cs) = or_malformed (parse_octal (c ∷ cs))

-- The first code unit of a text, which is none for the sign and its number in a pax record.
unfoldable pub split_at : (c : ℕ) → Text → Option (Text × Text)
split_at c [] = none
split_at c (d ∷ ds) =
    let rest = split_at c ds in
    if d == c then some ([], ds) else elim rest [ none ↦ none | some p ↦ some (d ∷ p.0, p.1) ]

-- `records.path` after a record: the record sets it if the text in front of its first `=` is `path`.
abbrev pub path_after : Option (Text × Text) → Option Text → Option Text
path_after none path = path
path_after (some (key, value)) path = if same key (codes "path") then some value else path

module _ (t : TextPlatform) where
  -- `cString(bytes, start, length)`
  abbrev pub c_string : List ℕ → (start size : ℕ) → Text
  c_string bytes start size = t.decode (until 0 (take size (drop start bytes)))

  abbrev pub octal : List ℕ → (start size : ℕ) → Result TarError ℕ
  octal bytes start size = octal_of_text (t.trim (c_string bytes start size))

  abbrev pub pax_record : List ℕ → (space size : ℕ) → Text
  pax_record bytes space size = t.decode (take (size - 1 - suc space) (drop (suc space) bytes))

  -- One round of the loop of `paxRecords`, where `next` are the later rounds.
  abbrev pub pax_round :
      JsNumber
      → List ℕ
      → (space : ℕ) → Option Text
      → (ℕ → Option Text → Result TarError (Option Text))
      → Result TarError (Option Text)
  pax_round not_finite bytes space path next = ok path
  pax_round (fraction true) bytes space path next = ok path
  pax_round (fraction false) bytes space path next = err out_of_fuel
  pax_round (integer (negsuc n)) bytes space path next = ok path
  pax_round (integer (pos zero)) bytes space path next = ok path
  pax_round (integer (pos (suc n))) bytes space path next =
      next n (path_after (split_at 61 (pax_record bytes space (suc n))) path)

  -- The `path` of `paxRecords`; a round drops at least a byte.
  unfoldable pub pax_from : (fuel : ℕ) → List ℕ → Option Text → Result TarError (Option Text)
  unfolding until split_at
  pax_from zero bytes path = err out_of_fuel
  pax_from (suc fuel) [] path = ok path
  pax_from (suc fuel) (b ∷ bytes) path =
      let size = until 32 (b ∷ bytes) in
      pax_round (t.number (t.decode size)) (b ∷ bytes) (length size) path
        (λ n p. pax_from fuel (drop n bytes) p)

  unfoldable pub pax_path : List ℕ → Result TarError (Option Text)
  unfolding pax_from
  pax_path bytes = pax_from (suc (length bytes)) bytes none
