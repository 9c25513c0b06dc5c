-- ===== src/Packages/Total.antt =====
-- The loops of the tar reader end.
use kody_celld.Prelude.{ℕ, ◌≡◌, ◌≢◌, take, false, List, drop}
use kody_celld.Act.{Result, err}
use kody_celld.Packages.Tar.{
  TarError, out_of_fuel, TarEntry, TarLimits, TextPlatform, fraction, until,
}
use kody_celld.Packages.Read.{TarState}

abbrev pub Ends : {A : Type 0} → Result TarError A → Type 0
Ends r = r ≢ err out_of_fuel

-- Bytes of an archive.
abbrev pub IsSlice : (archive bytes : List ℕ) → Type 0
IsSlice archive bytes = (start : ℕ) × (size : ℕ) × (bytes ≡ take size (drop start archive))

module _ (t : TextPlatform) where
  -- No bytes of the archive in front of a space are read as a positive number that is no integer.
  abbrev pub HasWholeSizes : List ℕ → Type 0
  HasWholeSizes archive =
      (bytes : List ℕ)
      → IsSlice archive bytes
      → t.number (t.decode (until 32 bytes)) ≢ fraction false

  module _ (limits : TarLimits) (archive : List ℕ) (whole : HasWholeSizes archive) where
    abbrev Next : Type 0
    Next = TarState → Result TarError (List TarEntry)
