-- ===== src/Tests/RunTable.antt =====
-- The table of runs on concrete inputs.
use kody_celld.Prelude.{
  ℕ, ◌≡◌, refl, false, true, none, some, List, [], ◌∷◌, Text, codes, All, arith, ◌||◌, map, same,
}
use kody_celld.Table.{find, count_if}
use kody_celld.Runs.Defs.{
  success, error, is_error, ignored, resolved, set, only_open, RunRow, BulkInput,
}
use kody_celld.Runs.Triage.{
  has_run_id, bulk_where, UpdateInput, ok, not_error, is_reopen, update_run,
}
use kody_celld.Runs.Drain.{repeat_bulk, bulk_drains}
use kody_celld.Runs.AutoResolve.{
  AutoResolveInput, IsPriorFailure, auto_resolve_job, auto_resolve_exact,
}
use kody_celld.Runs.Update.{update_run_exact}

abbrev failed_at : ℕ → Text → RunRow
failed_at created_at id = record {
  id = id;
  kind = codes "job";
  package_name = none;
  job_id = some (codes "j");
  status = error;
  created_at = created_at;
  error_name = none;
  error_message = none;
  error_triage = none;
  triage_note = none;
  triaged_at = none;
  triaged_by = none;
}

abbrev succeeded : RunRow
succeeded = record (failed_at 2 (codes "s")) { status = success }

abbrev table : List RunRow
table = failed_at 1 (codes "a") ∷ succeeded ∷ failed_at 3 (codes "b") ∷ []

abbrev ignore_job : BulkInput
ignore_job = record {
  run_ids = none;
  filter = some (record {
    kind = none;
    package_name = none;
    job_id = some (codes "j");
    error_name = none;
    error_message = none;
    error_triage = only_open;
  });
  triage = set ignored;
  note = none;
  limit = 1;
  dry_run = false;
  by = codes "me";
}

bulk_drains_example :
    (rows' : List RunRow) × (repeat_bulk (λ t. t) (λ n. n) ignore_job 3 table ≡ some rows')
    × All (λ r. bulk_where ignore_job r ≡ false) rows'
    × (map (λ r. r.id) rows' ≡ map (λ r. r.id) table)
unfolding count_if bulk_where same
bulk_drains_example =
    bulk_drains (λ t. t) (λ n. n) ignore_job refl (omega arith) 3 table (omega arith)

abbrev finished : AutoResolveInput
finished = record { run_id = codes "s"; job_id = codes "j" }

auto_resolve_exact_example :
    let after = (auto_resolve_job 10 finished table).1 in
    (IsPriorFailure finished succeeded (failed_at 1 (codes "a"))
      → find (has_run_id (codes "a")) after
        ≡ some (record (failed_at 1 (codes "a")) {
          error_triage = some resolved;
          triage_note = some (codes "auto-resolved: later success of the same job");
          triaged_at = some 10;
          triaged_by = some (codes "system:auto-resolve");
        }))
    × (¬ IsPriorFailure finished succeeded (failed_at 1 (codes "a"))
        → find (has_run_id (codes "a")) after ≡ some (failed_at 1 (codes "a")))
    × All (λ r. ¬ IsPriorFailure finished succeeded r) after
    × (auto_resolve_job 20 finished after ≡ (0, after))
unfolding find same
auto_resolve_exact_example =
    auto_resolve_exact 10 20 finished table succeeded (failed_at 1 (codes "a")) (codes "a") refl
      refl

abbrev ignore_b : UpdateInput
ignore_b = record { run_id = codes "b"; triage = set ignored; note = none; by = codes "me" }

update_run_exact_example :
    ((is_reopen (set ignored) || is_error error) ≡ true
      → ((update_run (λ t. t) 5 ignore_b table).0 ≡ ok)
        × (find (has_run_id (codes "a")) (update_run (λ t. t) 5 ignore_b table).1
            ≡ some (failed_at 1 (codes "a"))))
    × ((is_reopen (set ignored) || is_error error) ≡ false
        → update_run (λ t. t) 5 ignore_b table ≡ (not_error error, table))
unfolding find same
update_run_exact_example =
    update_run_exact (λ t. t) 5 ignore_b table (failed_at 3 (codes "b")) (failed_at 1 (codes "a"))
      (codes "a") refl refl
