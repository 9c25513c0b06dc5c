-- ===== src/Tests/TarArchive.antt =====
-- The tar reader on a small archive.
use kody_celld.Prelude.{ℕ, zero, suc, ◌≤◌, refl, List, [], ◌∷◌, ◌++◌, codes, length, starts_with}
use kody_celld.Packages.Tar.{
  TextPlatform, TarLimits, TarEntry, not_finite, until, all_zero, octal_digits, parse_octal,
}
use kody_celld.Packages.Read.{read_from, read_tar}
use kody_celld.Packages.Sizes.{total_size, read_tar_bounded}

abbrev platform : TextPlatform
platform = record { decode = λ bytes. bytes; trim = λ t. t; number = λ t. not_finite }

abbrev limits : TarLimits
limits = record { max_files = 1; max_total_bytes = 5 }

unfoldable zeros : ℕ → List ℕ
zeros zero = []
zeros (suc n) = 0 ∷ zeros n

-- One file `a` of two bytes, and no padding behind a second, empty block.
abbrev archive : List ℕ
archive = 97 ∷ (zeros 123 ++ codes "2" ++ zeros 31 ++ 48 ∷ (zeros 355 ++ 7 ∷ 8 ∷ zeros 510))

abbrev files : List TarEntry
files = record { path = codes "a"; bytes = 7 ∷ 8 ∷ [] } ∷ []

read_tar_bounded_example : (length files ≤ 1) × (total_size files ≤ 5)
unfolding read_tar read_from zeros until all_zero octal_digits starts_with parse_octal
read_tar_bounded_example = read_tar_bounded platform limits archive files refl
