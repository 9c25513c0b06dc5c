-- ===== src/Runs/Drain.antt =====
-- A caller that repeats `bulk` while `hasMore` is set.
use kody_celld.Prelude.{
  ℕ, zero, suc, ◌≤◌, ◌<◌, Bool, true, false, ◌&&◌, Option, none, some, List, [], ◌∷◌, map, Text,
  same_refl, contains, ltb, length, take, if◌then◌else◌, ◌≡◌, refl, sym, ap, ◌∙◌, arith, All,
  All-weaken, inl, inr, Bool-cases,
}
use kody_celld.Table.{select, update, exists, count_if}
use kody_celld.Table.Counts.{count_if-update_lt, exists-select, contains-map}
use kody_celld.Runs.Defs.{RunRow, ignored, resolved, RunTriageUpdate, set, reopen, BulkInput}
use kody_celld.Table.Sort.{exists-sort_by}
use kody_celld.Runs.Order.{newest_first}
use kody_celld.Runs.Triage.{
  has_run_id, is_one_of, write_triage, apply, off_target, bulk_where, bulk_matched, bulk_select,
  bulk,
}

-- `none` where the fuel does not last; the argument of `clock` is the fuel that is left.
unfoldable pub repeat_bulk :
    (Text → Text) → (clock : ℕ → ℕ) → BulkInput → (fuel : ℕ) → List RunRow → Option (List RunRow)
repeat_bulk trim clock input zero rows = none
repeat_bulk trim clock input (suc fuel) rows =
    let (result, rows') = bulk trim (clock fuel) input rows in
    let rest = repeat_bulk trim clock input fuel rows' in
    if result.has_more then rest else some rows'

take_short :
    (n : ℕ) (rows : List RunRow)
    → length (map (λ r. r.id) (take (suc n) rows)) ≤ n
    → take n (map (λ r. r.id) (take (suc n) rows)) ≡ map (λ r. r.id) rows
take_short zero [] few = refl
take_short zero (r ∷ rows) few = absurd (omega arith)
take_short (suc n) [] few = refl
take_short (suc n) (r ∷ rows) few = ap (λ ids. r.id ∷ ids) (take_short n rows (omega arith))

first_named :
    (n : ℕ) (rows : List RunRow)
    → 1 ≤ n
    → n < length (map (λ r. r.id) (take (suc n) rows))
    → exists (is_one_of (take n (map (λ r. r.id) (take (suc n) rows)))) rows ≡ true
unfolding exists contains
first_named zero rows positive more = absurd (omega arith)
first_named (suc n) [] positive more = absurd (omega arith)
first_named (suc n) (r ∷ rows) positive more = rw (same_refl r.id) refl

-- A row that is written to the target state is skipped from then on.
written_off_target :
    (trim : Text → Text) (now : ℕ) (triage : RunTriageUpdate) (note : Option Text) (by : Text)
    (row : RunRow)
    → off_target triage (write_triage trim now triage note by row).error_triage ≡ false
unfolding off_target write_triage
written_off_target trim now reopen remark by row = refl
written_off_target trim now (set ignored) none by row = refl
written_off_target trim now (set resolved) none by row = refl
written_off_target trim now (set ignored) (some remark) by row = refl
written_off_target trim now (set resolved) (some remark) by row = refl

module _ (trim : Text → Text) (now : ℕ) (input : BulkInput) where
  abbrev wanted : RunRow → Bool
  wanted = bulk_where input

  abbrev write : RunRow → RunRow
  write = write_triage trim now input.triage input.note input.by

  written-unwanted : (row : RunRow) → wanted (write row) ≡ false
  unfolding bulk_where
  written-unwanted row = rw (written_off_target trim now input.triage input.note input.by row) refl

  -- The ids that the SELECT gives name a wanted row; without a further page they name all.
  abbrev sorted : List RunRow → List RunRow
  sorted rows = newest_first (select wanted rows)

  exists-sorted :
      (other : RunRow → Bool) (rows : List RunRow)
      → exists other (sorted rows) ≡ exists (λ r. wanted r && other r) rows
  exists-sorted other rows =
      exists-sort_by _ other (select wanted rows) ∙ exists-select wanted other rows

  -- What is written is wanted no more, where every wanted row is named.
  unwanted_after :
      (ids : List Text) (rows : List RunRow)
      → All (λ r. wanted r ≡ true → contains r.id ids ≡ true) rows
      → All (λ r. wanted r ≡ false) (update (is_one_of ids) write rows)
  unfolding update
  unwanted_after ids [] named = tt
  unwanted_after ids (r ∷ rows) named = (
    elim (Bool-cases (contains r.id ids)) [
      | inl hit ↦ rw hit (written-unwanted r)
      | inr kept ↦ rw kept (ground (arith, named.0))
    ],
    unwanted_after ids rows named.1,
  )

  wanted_named :
      (rows : List RunRow)
      → All (λ r. wanted r ≡ true → exists (has_run_id r.id) (select wanted rows) ≡ true) rows
  unfolding exists select
  wanted_named [] = tt
  wanted_named (r ∷ rows) = (
    λ w. ground (arith, same_refl r.id),
    All-weaken _ _ rows (λ x h w. ground (arith, h w)) (wanted_named rows),
  )

  abbrev found : List RunRow → List Text
  found rows = bulk_select input rows

  All-named :
      (rows : List RunRow)
      → ltb input.limit (length (found rows)) ≡ false
      → All (λ r. wanted r ≡ true → contains r.id (take input.limit (found rows)) ≡ true) rows
  unfolding bulk_select
  All-named rows last_page =
      All-weaken _ _ rows
        (λ r h w.
          rw
            (
              take_short input.limit (sorted rows) (ground arith),
              contains-map (λ (x : RunRow). x.id) r.id (sorted rows),
              exists-sort_by _ (has_run_id r.id) (select wanted rows),
            )
            (h w))
        (wanted_named rows)

  some_named :
      (rows : List RunRow)
      → 1 ≤ input.limit
      → ltb input.limit (length (found rows)) ≡ true
      → exists (λ r. wanted r && is_one_of (take input.limit (found rows)) r) rows ≡ true
  unfolding bulk_select
  some_named rows positive more =
      sym (exists-sorted (is_one_of (take input.limit (found rows))) rows)
      ∙ first_named input.limit (sorted rows) positive (ground arith)

  update_none : (rows : List RunRow) → update (is_one_of []) write rows ≡ rows
  unfolding update contains
  update_none [] = refl
  update_none (r ∷ rows) = ap (λ rest. r ∷ rest) (update_none rows)

  bulk_matched-writes :
      (matched : List Text) (has_more : Bool) (rows : List RunRow)
      → input.dry_run ≡ false
      → ((bulk_matched trim now input matched has_more rows).0.has_more ≡ has_more)
        × ((bulk_matched trim now input matched has_more rows).1
            ≡ update (is_one_of matched) write rows)
  unfolding bulk_matched apply
  bulk_matched-writes [] has_more rows real = rw real (refl, sym (update_none rows))
  bulk_matched-writes (id ∷ matched) has_more rows real = rw real (refl, refl)

  -- What a call that is no dry run returns and writes.
  bulk-writes :
      (rows : List RunRow)
      → input.dry_run ≡ false
      → ((bulk trim now input rows).0.has_more ≡ ltb input.limit (length (found rows)))
        × ((bulk trim now input rows).1
            ≡ update (is_one_of (take input.limit (found rows))) write rows)
  unfolding bulk
  bulk-writes rows real =
      bulk_matched-writes (take input.limit (found rows)) (ltb input.limit (length (found rows)))
        rows real

  fewer_wanted :
      (rows : List RunRow)
      → input.dry_run ≡ false
      → 1 ≤ input.limit
      → (bulk trim now input rows).0.has_more ≡ true
      → count_if wanted (bulk trim now input rows).1 < count_if wanted rows
  fewer_wanted rows real positive more =
      let (has_more, written) = bulk-writes rows real in
      rw written (
        count_if-update_lt wanted _ write (λ r hit. written-unwanted r) rows
          (some_named rows positive (sym has_more ∙ more)))

  none_wanted :
      (rows : List RunRow)
      → input.dry_run ≡ false
      → (bulk trim now input rows).0.has_more ≡ false
      → All (λ r. wanted r ≡ false) (bulk trim now input rows).1
  none_wanted rows real last =
      let (has_more, written) = bulk-writes rows real in
      rw written (unwanted_after _ rows (All-named rows (sym has_more ∙ last)))

pub write_triage-id :
    (trim : Text → Text) (now : ℕ) (triage : RunTriageUpdate) (note : Option Text) (by : Text)
    (row : RunRow)
    → (write_triage trim now triage note by row).id ≡ row.id
unfolding write_triage
write_triage-id trim now reopen remark by row = refl
write_triage-id trim now (set t) none by row = refl
write_triage-id trim now (set t) (some remark) by row = refl

-- An UPDATE that leaves the key column alone keeps the list of keys.
map-update :
    (hit : RunRow → Bool) (change : RunRow → RunRow)
    → ((r : RunRow) → (change r).id ≡ r.id)
    → (rows : List RunRow) → map (λ r. r.id) (update hit change rows) ≡ map (λ r. r.id) rows
unfolding update
map-update hit change same_id [] = refl
map-update hit change same_id (r ∷ rows) = elim (Bool-cases (hit r)) [
  | inl t ↦ rw (t, same_id r, map-update hit change same_id rows) refl
  | inr f ↦ rw (f, map-update hit change same_id rows) refl
]

bulk-ids :
    (trim : Text → Text) (now : ℕ) (input : BulkInput) (rows : List RunRow)
    → input.dry_run ≡ false
    → map (λ r. r.id) (bulk trim now input rows).1 ≡ map (λ r. r.id) rows
bulk-ids trim now input rows real =
    rw ((bulk-writes trim now input rows real).1)
      (map-update _ _ (write_triage-id trim now input.triage input.note input.by) rows)

-- A caller that repeats `bulk` while it says that there is more, with at least one row per call and
-- no dry run, stops: after at most one call more than rows match at the start. Then
-- no row matches, and the table has the same runs.
pub bulk_drains :
    (trim : Text → Text) (clock : ℕ → ℕ) (input : BulkInput)
    → input.dry_run ≡ false
    → 1 ≤ input.limit
    → (fuel : ℕ) (rows : List RunRow) → count_if (bulk_where input) rows < fuel
    → (rows' : List RunRow) × (repeat_bulk trim clock input fuel rows ≡ some rows')
      × All (λ r. bulk_where input r ≡ false) rows'
      × (map (λ r. r.id) rows' ≡ map (λ r. r.id) rows)
unfolding repeat_bulk
bulk_drains trim clock input real positive zero rows enough = absurd (omega arith)
bulk_drains trim clock input real positive (suc fuel) rows enough =
    let after = (bulk trim (clock fuel) input rows).1 in
    let same_ids = bulk-ids trim (clock fuel) input rows real in
    elim (Bool-cases (bulk trim (clock fuel) input rows).0.has_more) [
      | inl more ↦
          let fewer = fewer_wanted trim (clock fuel) input rows real positive more in
          let (rows', run, done, ids) =
            bulk_drains trim clock input real positive fuel after (omega arith) in
          rw more (rows', run, done, ids ∙ same_ids)
      | inr last ↦
          rw last (after, refl, none_wanted trim (clock fuel) input rows real last, same_ids)
    ]
