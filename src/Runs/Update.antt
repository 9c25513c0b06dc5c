-- ===== src/Runs/Update.antt =====
-- What `update` of `RunTriageStore` does to every run of the table.
use kody_celld.Prelude.{
  ℕ, true, false, ◌||◌, some, List, [], ◌∷◌, Text, same, same→eq, same_refl, same_of_ne, ne_of_same,
  contains, if◌then◌else◌, ◌≡◌, refl, sym, arith, inl, inr, Bool-cases,
}
use kody_celld.Table.{find, changed}
use kody_celld.Table.Laws.{find-update-some}
use kody_celld.Runs.Defs.{is_error, RunRow}
use kody_celld.Runs.Drain.{write_triage-id}
use kody_celld.Runs.Triage.{
  has_run_id, is_one_of, write_triage, apply, ok, not_error, is_reopen, UpdateInput, update_found,
  update_run,
}

module _ (trim : Text → Text) (now : ℕ) (input : UpdateInput) where
  abbrev written : RunRow → RunRow
  written = write_triage trim now input.triage input.note input.by

  written_blind :
      (ids : List Text) (id : Text) (x : RunRow)
      → has_run_id id (changed (is_one_of ids) written x) ≡ has_run_id id x
  written_blind ids id x = elim (Bool-cases (is_one_of ids x)) [
    | inl t ↦ rw (t, write_triage-id trim now input.triage input.note input.by x) refl
    | inr f ↦ rw f refl
  ]

  changed-one :
      (id : Text) (x : RunRow)
      → changed (is_one_of (id ∷ [])) written x ≡ (if same x.id id then written x else x)
  unfolding contains
  changed-one id x = elim (Bool-cases (same x.id id)) [
    | inl t ↦ rw (same→eq x.id id t, same_refl id) refl
    | inr f ↦ rw (f, same_of_ne id x.id (λ e. ne_of_same x.id id f (sym e))) refl
  ]

  -- For a stored run: a reopening, or any triage of a failed run, is written to that run, and no
  -- other run changes; a triage of a run that did not fail is refused with its status, and nothing
  -- is written.
  pub update_run_exact :
      (rows : List RunRow) (row other : RunRow) (id : Text)
      → find (has_run_id input.run_id) rows ≡ some row
      → find (has_run_id id) rows ≡ some other
      → ((is_reopen input.triage || is_error row.status) ≡ true
          → ((update_run trim now input rows).0 ≡ ok)
            × (find (has_run_id id) (update_run trim now input rows).1
                ≡ some (if same other.id input.run_id then written other else other)))
        × ((is_reopen input.triage || is_error row.status) ≡ false
            → update_run trim now input rows ≡ (not_error row.status, rows))
  unfolding update_run update_found apply
  update_run_exact rows row other id found stored = rw found (
    λ allowed. ground (
      arith,
      allowed,
      find-update-some (has_run_id id) (is_one_of (input.run_id ∷ [])) written rows other
          (written_blind (input.run_id ∷ []) id) stored,
      changed-one input.run_id other,
    ),
    λ refused. ground (arith, refused),
  )
