-- ===== src/Runs/Triage.antt =====
-- `update`, `bulk` and `apply`.
use kody_celld.Prelude.{
  ℕ, suc, Bool, true, false, not, ◌&&◌, ◌||◌, Option, none, some, List, [], ◌∷◌, map, Text, same,
  contains, ltb, length, take, if◌then◌else◌,
}
use kody_celld.Table.{find, select, update, count_if}
use kody_celld.Runs.Defs.{
  RunStatus, is_error, RunErrorTriage, same_triage, RunTriageUpdate, set, reopen, ErrorTriageFilter,
  triaged_as, only_open, all_triage, RunRow, BulkFilter, BulkInput,
}
use kody_celld.Runs.Order.{newest_first}

abbrev pub has_run_id : Text → RunRow → Bool
has_run_id id row = same row.id id

-- `id IN (ids)`
abbrev pub is_one_of : List Text → RunRow → Bool
is_one_of ids row = contains row.id ids

-- `error_triage = ?`, which is not true of NULL
abbrev pub is_triaged_as : RunErrorTriage → Option RunErrorTriage → Bool
is_triaged_as triage none = false
is_triaged_as triage (some t) = same_triage t triage

abbrev pub is_open : Option RunErrorTriage → Bool
is_open none = true
is_open (some t) = false

-- `errorTriageWhere`
unfoldable pub error_triage_where : ErrorTriageFilter → RunRow → Bool
error_triage_where only_open row = is_error row.status && is_open row.error_triage
error_triage_where (triaged_as t) row = is_triaged_as t row.error_triage
error_triage_where all_triage row = true

-- The columns that one UPDATE of `apply` sets; the note is trimmed, and cleared if nothing is left.
unfoldable pub note_column : (trim : Text → Text) → Text → Option Text
note_column trim remark = elim (trim remark) [ [] ↦ none | c ∷ cs ↦ some (c ∷ cs) ]

module _ (trim : Text → Text) (now : ℕ) where
  unfoldable pub write_triage : RunTriageUpdate → Option Text → Text → RunRow → RunRow
  unfolding note_column
  write_triage reopen remark by row = record row {
    error_triage = none;
    triage_note = none;
    triaged_at = none;
    triaged_by = none;
  }
  write_triage (set t) none by row = record row {
    error_triage = some t;
    triaged_at = some now;
    triaged_by = some by;
  }
  write_triage (set t) (some remark) by row = record row {
    error_triage = some t;
    triage_note = note_column trim remark;
    triaged_at = some now;
    triaged_by = some by;
  }

  unfoldable pub apply :
      List Text → RunTriageUpdate → Option Text → Text → List RunRow → ℕ × List RunRow
  unfolding write_triage
  apply ids triage note by rows =
      (count_if (is_one_of ids) rows, update (is_one_of ids) (write_triage triage note by) rows)

pub data UpdateResult : Type 0 where
  ok not_found : UpdateResult
  not_error : RunStatus → UpdateResult

abbrev pub is_reopen : RunTriageUpdate → Bool
is_reopen reopen = true
is_reopen (set t) = false

pub record UpdateInput : Type 0 where
  pub run_id : Text
  pub triage : RunTriageUpdate
  pub note : Option Text
  pub by : Text

unfoldable pub update_found :
    (Text → Text) → ℕ → UpdateInput → Option RunRow → List RunRow → UpdateResult × List RunRow
unfolding apply
update_found trim now input none rows = (not_found, rows)
update_found trim now input (some row) rows =
    if not (is_reopen input.triage) && not (is_error row.status)
    then (not_error row.status, rows)
    else (ok, (apply trim now (input.run_id ∷ []) input.triage input.note input.by rows).1)

unfoldable pub update_run :
    (Text → Text) → ℕ → UpdateInput → List RunRow → UpdateResult × List RunRow
unfolding update_found
update_run trim now input rows =
    update_found trim now input (find (has_run_id input.run_id) rows) rows

-- A row that is already in the target state is skipped.
unfoldable pub off_target : RunTriageUpdate → Option RunErrorTriage → Bool
off_target reopen triage = not (is_open triage)
off_target (set t) triage = not (is_triaged_as t triage)

-- A condition that is present only where the caller gave a value.
abbrev pub equals_if_given : Option Text → Option Text → Bool
equals_if_given none column = true
equals_if_given (some wanted) none = false
equals_if_given (some wanted) (some value) = same value wanted

abbrev pub listed_if_given : Option (List Text) → Text → Bool
listed_if_given none id = true
listed_if_given (some ids) id = contains id ids

unfoldable pub passes : Option BulkFilter → RunRow → Bool
unfolding error_triage_where
passes none row = true
passes (some f) row =
    error_triage_where f.error_triage row
    && equals_if_given f.kind (some row.kind)
    && equals_if_given f.package_name row.package_name
    && equals_if_given f.job_id row.job_id
    && equals_if_given f.error_name row.error_name
    && equals_if_given f.error_message row.error_message

-- The WHERE clause of `bulk`.
unfoldable pub bulk_where : BulkInput → RunRow → Bool
unfolding off_target passes
bulk_where input row =
    off_target input.triage row.error_triage
    && (is_error row.status && listed_if_given input.run_ids row.id && passes input.filter row)

pub record BulkResult : Type 0 where
  pub matched_run_ids : List Text
  pub updated_count : ℕ
  pub has_more : Bool
  pub dry_run : Bool

abbrev pub is_empty : List Text → Bool
is_empty [] = true
is_empty (id ∷ ids) = false

-- The returns of `bulk`, without a write and with one.
unfoldable pub bulk_matched :
    (Text → Text)
    → ℕ
    → BulkInput
    → (matched : List Text) → (has_more : Bool) → List RunRow
    → BulkResult × List RunRow
unfolding apply
bulk_matched trim now input matched has_more rows =
    if input.dry_run || is_empty matched
    then (
      record {
        matched_run_ids = matched;
        updated_count = 0;
        has_more = has_more;
        dry_run = input.dry_run;
      },
      rows,
    )
    else let (updated, rows') = apply trim now matched input.triage input.note input.by rows in
      (
        record {
          matched_run_ids = matched;
          updated_count = updated;
          has_more = has_more;
          dry_run = false;
        },
        rows',
      )

-- ORDER BY created_at DESC, id DESC LIMIT limit + 1
unfoldable pub bulk_select : BulkInput → List RunRow → List Text
unfolding bulk_where
bulk_select input rows =
    map (λ r. r.id) (take (suc input.limit) (newest_first (select (bulk_where input) rows)))

unfoldable pub bulk : (Text → Text) → ℕ → BulkInput → List RunRow → BulkResult × List RunRow
unfolding bulk_matched bulk_select
bulk trim now input rows =
    let ids = bulk_select input rows in
    bulk_matched trim now input (take input.limit ids) (ltb input.limit (length ids)) rows
