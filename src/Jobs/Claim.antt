-- ===== src/Jobs/Claim.antt =====
-- `jobGet`, `jobUpdate` and `jobsClaimDue` of src/cells/user-cell.ts, on the columns of `jobs` that
-- they test or write.
use kody_celld.Prelude.{
  ℕ, Bool, true, false, ◌&&◌, Option, none, some, List, [], ◌∷◌, map, Text, same, same_refl,
  same_sym, contains, leb, ltb, ◌≡◌, refl, ap, ◌∙◌, arith, All, All-weaken, inl, inr, Bool-cases,
}
use kody_celld.Table.{find, select, update, exists}
use kody_celld.Table.Counts.{contains-map, select-none}
use kody_celld.Table.Sort.{sort_by, exists-sort_by}
use kody_celld.Act.{Act, Result, ok, err, Result-cases}
use kody_celld.Jobs.Schedule.{Error, job_not_found, ZonedParts, JobSchedule, compute_next_run}
use kody_celld.Jobs.Next.{compute_next_run-late}

pub data JobStatus : Type 0 where
  running success error : JobStatus

pub record JobRow : Type 0 where
  pub id : Text
  pub schedule : JobSchedule
  pub timezone : Option Text
  pub enabled : Bool
  pub next_run_at : Option ℕ
  pub last_run_at : Option ℕ
  pub last_status : Option JobStatus
  pub updated_at : ℕ

abbrev pub has_job_row_id : Text → JobRow → Bool
has_job_row_id id row = same row.id id

unfoldable pub job_get : Text → List JobRow → Option JobRow
job_get id rows = find (has_job_row_id id) rows

-- `next_run_at IS NOT NULL AND next_run_at <= ?`
abbrev pub has_come : (now : ℕ) → Option ℕ → Bool
has_come now none = false
has_come now (some at) = leb at now

abbrev pub is_due : (now : ℕ) → JobRow → Bool
is_due now row = row.enabled && has_come now row.next_run_at

-- ORDER BY next_run_at, of rows that have one.
abbrev pub runs_after : Option ℕ → Option ℕ → Bool
runs_after (some a) (some b) = ltb b a
runs_after _ _ = false

abbrev pub due_jobs : (now : ℕ) → List JobRow → List JobRow
due_jobs now rows =
    sort_by (λ job other. runs_after job.next_run_at other.next_run_at) (select (is_due now) rows)

unfoldable pub mark_claimed : (now : ℕ) → Option ℕ → JobRow → JobRow
mark_claimed now next_run row = record row {
  next_run_at = next_run;
  last_run_at = some now;
  last_status = some running;
  updated_at = now;
}

module _ (zoned : Text → ℕ → Option ZonedParts) where
  -- `jobUpdate` with the `enabled` of its input; without one it only reads.
  unfoldable pub set_enabled : (now : ℕ) → JobRow → Bool → Act (List JobRow) Error (Option JobRow)
  unfolding job_get
  set_enabled now job false rows =
      let rows' =
        update (has_job_row_id job.id)
          (λ r. record r { enabled = false; next_run_at = none; updated_at = now }) rows in
      (ok (job_get job.id rows'), rows')
  set_enabled now job true rows =
      elim (compute_next_run zoned job.schedule now job.timezone job.last_run_at) [
        | err e ↦ (err e, rows)
        | ok next_run ↦
            let rows' =
              update (has_job_row_id job.id)
                (λ r. record r { enabled = true; next_run_at = next_run; updated_at = now }) rows in
            (ok (job_get job.id rows'), rows')
      ]

  unfoldable pub update_job :
      (now : ℕ) → Option JobRow → Option Bool → Act (List JobRow) Error (Option JobRow)
  unfolding set_enabled
  update_job now none enabled rows = (err job_not_found, rows)
  update_job now (some job) none rows = (ok (some job), rows)
  update_job now (some job) (some enabled) rows = set_enabled now job enabled rows

  unfoldable pub job_update :
      (now : ℕ) (id : Text) (enabled : Option Bool) → Act (List JobRow) Error (Option JobRow)
  unfolding update_job
  job_update now id enabled rows = update_job now (job_get id rows) enabled rows

  -- The loop over the due jobs; a schedule that throws ends it.
  unfoldable pub claim_each : (now : ℕ) → List JobRow → List JobRow → Option Error × List JobRow
  unfolding mark_claimed
  claim_each now [] rows = (none, rows)
  claim_each now (job ∷ due) rows =
      elim (compute_next_run zoned job.schedule now job.timezone (some now)) [
        | err e ↦ (some e, rows)
        | ok next_run ↦
            claim_each now due (update (has_job_row_id job.id) (mark_claimed now next_run) rows)
      ]

  abbrev pub claim_result : List JobRow → Option Error → Result Error (List JobRow)
  claim_result due none = ok due
  claim_result due (some e) = err e

  abbrev pub claim :
      (now : ℕ) → List JobRow → List JobRow → Result Error (List JobRow) × List JobRow
  claim now rows due =
      let (thrown, rows') = claim_each now due rows in (claim_result due thrown, rows')

  unfoldable pub jobs_claim_due : (now : ℕ) → Act (List JobRow) Error (List JobRow)
  jobs_claim_due now rows = claim now rows (due_jobs now rows)

  claimed-not_due :
      (now : ℕ) (job row : JobRow) (next_run : Option ℕ)
      → compute_next_run zoned job.schedule now job.timezone (some now) ≡ ok next_run
      → is_due now (mark_claimed now next_run row) ≡ false
  unfolding mark_claimed
  claimed-not_due now job row none h = ground arith
  claimed-not_due now job row (some t) h =
      ground (arith, compute_next_run-late zoned job.schedule now job.timezone now t h)

  -- Every due row is one that the loop still has to claim.
  abbrev AllListed : ℕ → List JobRow → List JobRow → Type 0
  AllListed now due rows =
      All (λ r. is_due now r ≡ true → contains r.id (map (λ j. j.id) due) ≡ true) rows

  listed_after :
      (now : ℕ) (job : JobRow) (due : List JobRow) (next_run : Option ℕ)
      → compute_next_run zoned job.schedule now job.timezone (some now) ≡ ok next_run
      → (rows : List JobRow) → AllListed now (job ∷ due) rows
      → AllListed now due (update (has_job_row_id job.id) (mark_claimed now next_run) rows)
  unfolding update contains
  listed_after now job due next_run computed [] listed = tt
  listed_after now job due next_run computed (r ∷ rows) listed = (
    elim (Bool-cases (same r.id job.id)) [
      | inl hit ↦ rw hit (λ d. cc (d, claimed-not_due now job r next_run computed))
      | inr kept ↦ rw kept (λ d. ground (arith, listed.0 d, same_sym job.id r.id, kept))
    ],
    listed_after now job due next_run computed rows listed.1,
  )

  claim_each-none_due :
      (now : ℕ) (due rows : List JobRow)
      → (claim_each now due rows).0 ≡ none
      → AllListed now due rows
      → All (λ r. is_due now r ≡ false) (claim_each now due rows).1
  unfolding claim_each contains
  claim_each-none_due now [] rows h listed = All-weaken _ _ rows (λ r l. ground (arith, l)) listed
  claim_each-none_due now (job ∷ due) rows h listed =
      elim (Result-cases (compute_next_run zoned job.schedule now job.timezone (some now))) [
        | inl (next_run, computed) ↦
            rw (computed, claim_each)
              (claim_each-none_due now due
                (update (has_job_row_id job.id) (mark_claimed now next_run) rows)
                (rw (computed, claim_each) at h)
                (listed_after now job due next_run computed rows listed))
        | inr (e, computed) ↦ absurd (cc (rw (computed, claim_each) at h))
      ]

  select-listed :
      (now : ℕ) (rows : List JobRow)
      → All
          (λ r.
            is_due now r ≡ true → exists (has_job_row_id r.id) (select (is_due now) rows) ≡ true)
          rows
  unfolding exists select
  select-listed now [] = tt
  select-listed now (r ∷ rows) = (
    λ d. ground (arith, same_refl r.id),
    All-weaken _ _ rows (λ x h d. ground (arith, h d)) (select-listed now rows),
  )

  nothing_due :
      (now : ℕ) (rows : List JobRow)
      → All (λ r. is_due now r ≡ false) rows
      → jobs_claim_due now rows ≡ (ok [], rows)
  unfolding jobs_claim_due claim_each sort_by
  nothing_due now rows gone =
      let no_job : due_jobs now rows ≡ [] =
        ap (sort_by (λ job other. runs_after job.next_run_at other.next_run_at))
          (select-none (is_due now) rows gone) in
      ap (claim now rows) no_job

  due-listed : (now : ℕ) (rows : List JobRow) → AllListed now (due_jobs now rows) rows
  due-listed now rows =
      All-weaken _ _ rows
        (λ r l d.
          contains-map (λ (j : JobRow). j.id) r.id (due_jobs now rows)
          ∙ exists-sort_by _ (has_job_row_id r.id) (select (is_due now) rows)
          ∙ l d)
        (select-listed now rows)

  claim_returns :
      (due claimed : List JobRow) (thrown : Option Error)
      → claim_result due thrown ≡ ok claimed
      → thrown ≡ none
  claim_returns due claimed none h = refl
  claim_returns due claimed (some e) h = absurd (cc h)

  -- After a claim that does not throw, no job is due at the claimed instant, so that the same claim
  -- repeated returns no job and writes nothing.
  pub claim_once :
      (now : ℕ) (rows due : List JobRow)
      → (jobs_claim_due now rows).0 ≡ ok due
      → All (λ r. is_due now r ≡ false) (jobs_claim_due now rows).1
        × (jobs_claim_due now (jobs_claim_due now rows).1 ≡ (ok [], (jobs_claim_due now rows).1))
  unfolding jobs_claim_due
  claim_once now rows due h =
      let gone =
        claim_each-none_due now (due_jobs now rows) rows (claim_returns (due_jobs now rows) due _ h)
          (due-listed now rows) in
      (gone, nothing_due now _ gone)
