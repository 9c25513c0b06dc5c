-- ===== src/Packages/Sizes.antt =====
-- The limits on what the tar reader returns.
use kody_celld.Prelude.{
  ℕ, zero, suc, ◌+◌, ◌≤◌, Option, List, [], ◌∷◌, Text, leb, ltb, length, take, drop, ◌≡◌, refl,
  subst, arith, inl, inr, Bool-cases,
}
use kody_celld.Act.{Result, ok, err, ok-injective}
use kody_celld.Packages.Tar.{
  TarError, TarEntry, TarLimits, TextPlatform, block, is_zero_block, pax_path,
}
use kody_celld.Packages.Read.{
  TarState, TypeFlag, long_name_flag, pax_flag, global_flag, file_flag, other_flag, add_entry,
  keep_file, with_pax, handle, settled, sized, read_from, read_tar,
}

unfoldable pub total_size : List TarEntry → ℕ
total_size [] = 0
total_size (e ∷ es) = length e.bytes + total_size es

length-take_le : (n : ℕ) (bytes : List ℕ) → length (take n bytes) ≤ n
length-take_le zero bytes = omega arith
length-take_le (suc n) [] = omega arith
length-take_le (suc n) (b ∷ bytes) = omega (arith, length-take_le n bytes)

module _ (t : TextPlatform) (limits : TarLimits) where
  abbrev Next : Type 0
  Next = TarState → Result TarError (List TarEntry)

  -- What is read from a state on keeps the limits.
  abbrev Fits : TarState → List TarEntry → Type 0
  Fits s es =
      (s.entries + length es ≤ limits.max_files)
      × (s.total_bytes + total_size es ≤ limits.max_total_bytes)

  abbrev IsUnder : TarState → Type 0
  IsUnder s = (s.entries ≤ limits.max_files) × (s.total_bytes ≤ limits.max_total_bytes)

  abbrev Keeps : Next → Type 0
  Keeps next = (u : TarState) (es : List TarEntry) → IsUnder u → next u ≡ ok es → Fits u es

  add_entry-ok :
      (entry : TarEntry) (r : Result TarError (List TarEntry)) (es : List TarEntry)
      → add_entry entry r ≡ ok es
      → (rest : List TarEntry) × (r ≡ ok rest) × (entry ∷ rest ≡ es)
  add_entry-ok entry (ok rest) es h = (rest, refl, ok-injective (entry ∷ rest) es h)
  add_entry-ok entry (err x) es h = absurd (cc h)

  keep_file-Fits :
      (size : ℕ) (entry : TarEntry) (s : TarState) (next : Next) (es : List TarEntry)
      → length entry.bytes ≤ size
      → Keeps next
      → keep_file t limits size entry s next ≡ ok es
      → Fits s es
  unfolding total_size
  keep_file-Fits size entry s next es small keeps h =
      elim (Bool-cases (leb limits.max_files s.entries)) [
        | inl many ↦ absurd (cc (rw many at h))
        | inr few ↦ elim (Bool-cases (ltb limits.max_total_bytes (s.total_bytes + size))) [
          | inl large ↦ absurd (cc (rw (few, large) at h))
          | inr room ↦
              let u : TarState = record s {
                entries = suc s.entries;
                total_bytes = s.total_bytes + size;
              } in
              let (rest, got, whole) = add_entry-ok entry (next u) es (rw (few, room) at h) in
              let (count, sum) = keeps u rest (ground (arith, few), ground (arith, room)) got in
              subst (Fits s) whole (omega (arith, count), omega (arith, sum, small))
        ]
      ]

  with_pax-Fits :
      (r : Result TarError (Option Text)) (s : TarState) (next : Next) (es : List TarEntry)
      → IsUnder s
      → Keeps next
      → with_pax t limits r s next ≡ ok es
      → Fits s es
  with_pax-Fits (ok path) s next es under keeps h = keeps (record s { pax = path }) es under h
  with_pax-Fits (err x) s next es under keeps h = absurd (cc h)

  handle-Fits :
      (flag : TypeFlag) (header bytes : List ℕ) (size : ℕ) (s : TarState) (next : Next)
      (es : List TarEntry)
      → length bytes ≤ size
      → IsUnder s
      → Keeps next
      → handle t limits flag header bytes size s next ≡ ok es
      → Fits s es
  handle-Fits long_name_flag header bytes size s next es small under keeps h = keeps _ es under h
  handle-Fits pax_flag header bytes size s next es small under keeps h =
      with_pax-Fits (pax_path t bytes) s next es under keeps h
  handle-Fits global_flag header bytes size s next es small under keeps h = keeps s es under h
  handle-Fits file_flag header bytes size s next es small under keeps h =
      keep_file-Fits size _ (settled t limits s) next es small keeps h
  handle-Fits other_flag header bytes size s next es small under keeps h =
      keeps (settled t limits s) es under h

  sized-Fits :
      (r : Result TarError ℕ) (rest : List ℕ) (s : TarState)
      (next : List ℕ → TarState → Result TarError (List TarEntry)) (es : List TarEntry)
      → IsUnder s
      → ((later : List ℕ) → Keeps (next later))
      → sized t limits r rest s next ≡ ok es
      → Fits s es
  sized-Fits (err x) rest s next es under keeps h = absurd (cc h)
  sized-Fits (ok size) rest s next es under keeps h =
      elim (Bool-cases (ltb (length rest) (block + size))) [
        | inl short ↦ absurd (cc (rw short at h))
        | inr long ↦
            handle-Fits _ _ _ size s _ es (length-take_le size (drop block rest)) under (keeps _)
              (rw long at h)
      ]

  nothing-Fits :
      (s : TarState) (es : List TarEntry)
      → IsUnder s
      → ◌≡◌ {A = Result TarError (List TarEntry)} (ok []) (ok es)
      → Fits s es
  unfolding total_size
  nothing-Fits s es under h =
      subst (Fits s) (ok-injective [] es h) (omega (arith, under), omega (arith, under))

  read_from-Fits :
      (fuel : ℕ) (rest : List ℕ) (s : TarState) (es : List TarEntry)
      → IsUnder s
      → read_from t limits fuel rest s ≡ ok es
      → Fits s es
  unfolding read_from
  read_from-Fits zero rest s es under h = absurd (cc h)
  read_from-Fits (suc fuel) rest s es under h = elim (Bool-cases (ltb (length rest) block)) [
    | inl short ↦ nothing-Fits s es under (rw short at h)
    | inr long ↦ elim (Bool-cases (is_zero_block rest)) [
      | inl blank ↦ nothing-Fits s es under (rw (long, blank) at h)
      | inr full ↦
          sized-Fits _ rest s (read_from t limits fuel) es under
            (λ later u more below got. read_from-Fits fuel later u more below got)
            (rw (long, full) at h)
    ]
  ]

  -- An archive that is read has no more files than the limit, and all of their bytes together are no
  -- more than the limit.
  pub read_tar_bounded :
      (archive : List ℕ) (es : List TarEntry)
      → read_tar t limits archive ≡ ok es
      → (length es ≤ limits.max_files) × (total_size es ≤ limits.max_total_bytes)
  unfolding read_tar
  read_tar_bounded archive es h =
      let (count, sum) =
        read_from-Fits (suc (length archive)) archive _ es (omega arith, omega arith) h in
      (omega (arith, count), omega (arith, sum))
