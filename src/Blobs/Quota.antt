-- ===== src/Blobs/Quota.antt =====
-- The quotas of stored objects.
use kody_celld.Prelude.{
  ℕ, ◌+◌, ◌≤◌, ◌≢◌, true, false, not, ◌||◌, Option, some, List, [], ◌∷◌, Text, same→eq, same_of_ne,
  ltb, ◌==◌, length, ◌≡◌, refl, sym, ap, ◌∙◌, arith, All, All-weaken, inl, inr, Bool-cases,
}
use kody_celld.Table.{find, update, exists}
use kody_celld.Table.Laws.{find-none, find_of_exists, none_exists}
use kody_celld.Table.Pairs.{AllPairs}
use kody_celld.Table.Counts.{length-update, update-none}
use kody_celld.Act.{Result, ok, err}
use kody_celld.Limits.Defs.{Quotas}
use kody_celld.Blobs.Index.{
  BlobRow, IndexError, PutInput, has_blob_key, blob_bytes, count_full, bytes_full, check_blob_quota,
  assert_blob_quota, overwrite, write_blob, put_checked, blob_index_put,
}

-- key TEXT PRIMARY KEY
abbrev pub IsKeyed : List BlobRow → Type 0
IsKeyed rows = AllPairs (λ (a : BlobRow) (b : BlobRow). a.key ≢ b.key) rows

-- The table keeps both quotas, where a quota of 0 is none.
abbrev pub IsWithin : Quotas → List BlobRow → Type 0
IsWithin quotas rows =
    (((quotas.blobs == 0) || not (ltb quotas.blobs (length rows))) ≡ true)
    × (((quotas.blob_bytes == 0) || not (ltb quotas.blob_bytes (blob_bytes rows))) ≡ true)

others_untouched :
    (key : Text) (r : BlobRow) (rows : List BlobRow)
    → has_blob_key key r ≡ true
    → All (λ (x : BlobRow). r.key ≢ x.key) rows
    → All (λ (x : BlobRow). has_blob_key key x ≡ false) rows
others_untouched key r rows hit apart =
    All-weaken _ _ rows (λ x n. same_of_ne x.key key (λ e. n (same→eq r.key key hit ∙ sym e))) apart

-- An overwritten object counts with its new size in place of the old one.
blob_bytes-overwrite :
    (input : PutInput) (now : ℕ) (rows : List BlobRow) (row : BlobRow)
    → IsKeyed rows
    → find (has_blob_key input.key) rows ≡ some row
    → (blob_bytes (update (has_blob_key input.key) (overwrite input now) rows) + row.size
        ≡ blob_bytes rows + input.size)
      × (row.size ≤ blob_bytes rows)
unfolding find update blob_bytes
blob_bytes-overwrite input now [] row keyed found = absurd (cc found)
blob_bytes-overwrite input now (r ∷ rows) row keyed found =
    elim (Bool-cases (has_blob_key input.key r)) [
      | inl hit ↦
          let same_row : r ≡ row = ground (arith, hit, found) in
          let same_size = ap (λ (x : BlobRow). x.size) same_row in
          let rest = ap blob_bytes (
            update-none (has_blob_key input.key) (overwrite input now) rows
              (others_untouched input.key r rows hit keyed.0)) in
          (rw hit (omega (arith, rest, same_size)), omega (arith, same_size))
      | inr miss ↦
          let (sum, small) = blob_bytes-overwrite input now rows row keyed.1 (rw miss at found) in
          (rw miss (omega (arith, sum)), omega (arith, small))
    ]

check-passed :
    (quotas : Quotas) (o existing : Option BlobRow) (size : ℕ) (rows : List BlobRow)
    → check_blob_quota quotas o size rows ≡ ok existing
    → (count_full quotas o rows ≡ false) × (bytes_full quotas o size rows ≡ false)
check-passed quotas o existing size rows h = elim (Bool-cases (count_full quotas o rows)) [
  | inl full ↦ absurd (cc (rw full at h))
  | inr room ↦ elim (Bool-cases (bytes_full quotas o size rows)) [
    | inl large ↦ absurd (cc (rw (room, large) at h))
    | inr small ↦ (room, small)
  ]
]

write_blob-IsWithin :
    (quotas : Quotas) (input : PutInput) (now : ℕ) (rows : List BlobRow)
    → IsKeyed rows
    → IsWithin quotas rows
    → count_full quotas (find (has_blob_key input.key) rows) rows ≡ false
    → bytes_full quotas (find (has_blob_key input.key) rows) input.size rows ≡ false
    → IsWithin quotas (write_blob input now rows)
unfolding write_blob blob_bytes
write_blob-IsWithin quotas input now rows keyed within room small =
    elim (Bool-cases (exists (has_blob_key input.key) rows)) [
      | inl old ↦
          let (row, found) = find_of_exists (has_blob_key input.key) rows old in
          let (sum, part) = blob_bytes-overwrite input now rows row keyed found in
          let small' = rw found at small in
          rw (old, length-update (has_blob_key input.key) (overwrite input now) rows)
            (within.0, ground (arith, sum, part, small'))
      | inr new ↦
          let absent =
            find-none (has_blob_key input.key) rows
              (none_exists (has_blob_key input.key) rows new) in
          let room' = rw absent at room in
          let small' = rw absent at small in rw new (ground (arith, room'), ground (arith, small'))
    ]

put_checked-IsWithin :
    (quotas : Quotas) (r : Result IndexError (Option BlobRow)) (input : PutInput) (now : ℕ)
    (rows : List BlobRow)
    → IsKeyed rows
    → IsWithin quotas rows
    → check_blob_quota quotas (find (has_blob_key input.key) rows) input.size rows ≡ r
    → IsWithin quotas (put_checked r input now rows).1
put_checked-IsWithin quotas (err e) input now rows keyed within h = within
put_checked-IsWithin quotas (ok existing) input now rows keyed within h =
    let (room, small) = check-passed quotas _ existing input.size rows h in
    write_blob-IsWithin quotas input now rows keyed within room small

-- Both quotas of stored objects, their number and their bytes, hold after a put to the index if they
-- held before, whatever the put returns; the keys in the index are unique.
pub blob_quotas_kept :
    (quotas : Quotas) (now : ℕ) (input : PutInput) (rows : List BlobRow)
    → IsKeyed rows
    → IsWithin quotas rows
    → IsWithin quotas (blob_index_put quotas now input rows).1
unfolding blob_index_put assert_blob_quota
blob_quotas_kept quotas now input rows keyed within =
    put_checked-IsWithin quotas _ input now rows keyed within refl
