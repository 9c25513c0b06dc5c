-- ===== src/Packages/Read.antt =====
-- `readTar`.
use kody_celld.Prelude.{
  ℕ, zero, suc, ◌+◌, ◌*◌, ◌/◌, ◌||◌, Option, none, some, List, [], ◌∷◌, ◌++◌, Text, codes,
  starts_with, leb, ltb, ◌==◌, length, take, drop, if◌then◌else◌,
}
use kody_celld.Act.{Result, ok, err}
use kody_celld.Packages.Tar.{
  TarError, truncated, too_many_files, too_large, out_of_fuel, TarEntry, TarLimits, TextPlatform,
  block, is_zero_block, all_zero, c_string, octal, pax_path,
}

-- The variables of the loop; `entries` is the number of entries so far.
pub record TarState : Type 0 where
  pub entries : ℕ
  pub total_bytes : ℕ
  pub long_name : Option Text
  pub pax : Option Text

pub data TypeFlag : Type 0 where
  long_name_flag pax_flag global_flag file_flag other_flag : TypeFlag

-- `L`, `x`, `g`; `0`, NUL and `7` are files.
abbrev pub flag_of : ℕ → TypeFlag
flag_of c =
    if c == 76
    then long_name_flag
    else if c == 120
    then pax_flag
    else if c == 103
    then global_flag
    else if (c == 48) || (c == 0) || (c == 55)
    then file_flag
    else other_flag

abbrev pub byte_at : List ℕ → ℕ
byte_at [] = 0
byte_at (b ∷ bytes) = b

-- `Math.ceil(size / BLOCK) * BLOCK`
abbrev pub padded : ℕ → ℕ
padded size = (size + 511) / 512 * block

abbrev pub with_prefix : Text → Text → Text
with_prefix [] path = path
with_prefix (c ∷ cs) path = (c ∷ cs) ++ 47 ∷ path

abbrev pub add_entry : TarEntry → Result TarError (List TarEntry) → Result TarError (List TarEntry)
add_entry entry (err e) = err e
add_entry entry (ok entries) = ok (entry ∷ entries)

module _ (t : TextPlatform) (limits : TarLimits) where
  abbrev pub header_path : List ℕ → Text
  header_path header =
      with_prefix
        (if starts_with (codes "ustar") (c_string t header 257 6)
          then c_string t header 345 155
          else [])
        (c_string t header 0 100)

  abbrev pub path_of : (long_name pax : Option Text) → List ℕ → Text
  path_of (some name) pax header = name
  path_of none (some path) header = path
  path_of none none header = header_path header

  abbrev pub settled : TarState → TarState
  settled s = record s { long_name = none; pax = none }

  -- A regular file against the limits, and the rounds that follow.
  abbrev pub keep_file :
      (size : ℕ)
      → TarEntry
      → TarState
      → (TarState → Result TarError (List TarEntry))
      → Result TarError (List TarEntry)
  keep_file size entry s next =
      if leb limits.max_files s.entries
      then err too_many_files
      else if ltb limits.max_total_bytes (s.total_bytes + size)
      then err too_large
      else add_entry entry
          (next (record s { entries = suc s.entries; total_bytes = s.total_bytes + size }))

  abbrev pub with_pax :
      Result TarError (Option Text)
      → TarState
      → (TarState → Result TarError (List TarEntry))
      → Result TarError (List TarEntry)
  with_pax (err e) s next = err e
  with_pax (ok path) s next = next (record s { pax = path })

  -- What a header of a type does with its data.
  abbrev pub handle :
      TypeFlag
      → (header data_bytes : List ℕ) → (size : ℕ) → TarState
      → (TarState → Result TarError (List TarEntry))
      → Result TarError (List TarEntry)
  handle long_name_flag header bytes size s next =
      next (record s { long_name = some (c_string t bytes 0 (length bytes)) })
  handle pax_flag header bytes size s next = with_pax (pax_path t bytes) s next
  handle global_flag header bytes size s next = next s
  handle file_flag header bytes size s next =
      keep_file size (record { path = path_of s.long_name s.pax header; bytes = bytes }) (settled s)
        next
  handle other_flag header bytes size s next = next (settled s)

  abbrev pub sized :
      Result TarError ℕ
      → List ℕ
      → TarState
      → (List ℕ → TarState → Result TarError (List TarEntry))
      → Result TarError (List TarEntry)
  sized (err e) rest s next = err e
  sized (ok size) rest s next =
      if ltb (length rest) (block + size)
      then err truncated
      else handle (flag_of (byte_at (drop 156 (take block rest)))) (take block rest)
          (take size (drop block rest)) size s (next (drop (block + padded size) rest))

  -- `rest` is the archive from `offset` on; a round drops at least a block of it.
  unfoldable pub read_from :
      (fuel : ℕ) → (rest : List ℕ) → TarState → Result TarError (List TarEntry)
  unfolding all_zero pax_path
  read_from zero rest s = err out_of_fuel
  read_from (suc fuel) rest s =
      if ltb (length rest) block
      then ok []
      else if is_zero_block rest
      then ok []
      else sized (octal t (take block rest) 124 12) rest s (read_from fuel)

  unfoldable pub read_tar : (archive : List ℕ) → Result TarError (List TarEntry)
  unfolding read_from
  read_tar archive =
      read_from (suc (length archive)) archive
        (record { entries = 0; total_bytes = 0; long_name = none; pax = none })
