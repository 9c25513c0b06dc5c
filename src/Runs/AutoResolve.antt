-- ===== src/Runs/AutoResolve.antt =====
-- `autoResolveJob`: a success of a job resolves the job's earlier errors.
use kody_celld.Prelude.{
  ℕ, Bool, false, ◌&&◌, Option, none, some, List, [], ◌∷◌, Text, codes, same, if◌then◌else◌, ◌≡◌,
  refl, All, inl, inr, Bool-cases, All-weaken, ◌<◌, ◌⊎◌, true, arith, ap, same→eq, same_refl, ltb,
}
use kody_celld.Table.{find, update, count_if, changed}
use kody_celld.Table.Laws.{find-update-some}
use kody_celld.Table.Counts.{count_if-none, update-none}
use kody_celld.Runs.Defs.{
  is_error, resolved, RunRow, RunErrorTriage, RunStatus, running, success, error,
}
use kody_celld.Runs.Order.{is_earlier, text_before}
use kody_celld.Runs.Triage.{has_run_id, is_open}

abbrev pub auto_resolve_note : Text
auto_resolve_note = codes "auto-resolved: later success of the same job"

abbrev pub auto_resolve_by : Text
auto_resolve_by = codes "system:auto-resolve"

abbrev pub job_kind : Text
job_kind = codes "job"

-- `job_id = ?`
abbrev pub has_job_id : Text → Option Text → Bool
has_job_id job_id none = false
has_job_id job_id (some j) = same j job_id

-- The WHERE clause, for the run that succeeded.
unfoldable pub is_prior_error : (run_id job_id : Text) (created_at : ℕ) → RunRow → Bool
unfolding is_earlier
is_prior_error run_id job_id created_at row =
    is_open row.error_triage
    && (is_error row.status
        && same row.kind job_kind
        && has_job_id job_id row.job_id
        && is_earlier row created_at run_id)

unfoldable pub resolve : ℕ → RunRow → RunRow
resolve now row = record row {
  error_triage = some resolved;
  triage_note = some auto_resolve_note;
  triaged_at = some now;
  triaged_by = some auto_resolve_by;
}

pub record AutoResolveInput : Type 0 where
  pub run_id : Text
  pub job_id : Text

unfoldable pub resolve_before :
    (now : ℕ) → AutoResolveInput → Option RunRow → List RunRow → ℕ × List RunRow
unfolding is_prior_error resolve
resolve_before now input none rows = (0, rows)
resolve_before now input (some succeeded) rows =
    let prior = is_prior_error input.run_id input.job_id succeeded.created_at in
    (count_if prior rows, update prior (resolve now) rows)

-- `now` is read where the run exists.
unfoldable pub auto_resolve_job : (now : ℕ) → AutoResolveInput → List RunRow → ℕ × List RunRow
unfolding resolve_before
auto_resolve_job now input rows =
    resolve_before now input (find (has_run_id input.run_id) rows) rows

module _ (now : ℕ) (run_id job_id : Text) (created_at : ℕ) where
  abbrev prior : RunRow → Bool
  prior = is_prior_error run_id job_id created_at

  resolved-not_prior : (row : RunRow) → prior (changed prior (resolve now) row) ≡ false
  unfolding is_prior_error resolve
  resolved-not_prior row = elim (Bool-cases (prior row)) [ inl t ↦ rw t refl | inr f ↦ rw f f ]

  none_prior : (rows : List RunRow) → All (λ r. prior r ≡ false) (update prior (resolve now) rows)
  unfolding update
  none_prior [] = tt
  none_prior (r ∷ rows) = (resolved-not_prior r, none_prior rows)

  find-resolved :
      (id : Text) (rows : List RunRow) (row : RunRow)
      → find (has_run_id id) rows ≡ some row
      → find (has_run_id id) (update prior (resolve now) rows)
        ≡ some (changed prior (resolve now) row)
  unfolding resolve
  find-resolved id rows row h =
      find-update-some (has_run_id id) prior (resolve now) rows row blind h
    where
      blind : (x : RunRow) → has_run_id id (changed prior (resolve now) x) ≡ has_run_id id x
      blind x = elim (Bool-cases (prior x)) [ inl t ↦ rw t refl | inr f ↦ rw f refl ]

  changed-created_at :
      (row : RunRow) → (changed prior (resolve now) row).created_at ≡ row.created_at
  unfolding resolve
  changed-created_at row = elim (Bool-cases (prior row)) [ inl t ↦ rw t refl | inr f ↦ rw f refl ]

-- The effect of a call, with the WHERE clause.
by_where :
    (now later : ℕ) (input : AutoResolveInput) (rows : List RunRow) (succeeded row : RunRow)
    (id : Text)
    → find (has_run_id input.run_id) rows ≡ some succeeded
    → find (has_run_id id) rows ≡ some row
    → let prior = is_prior_error input.run_id input.job_id succeeded.created_at in
      let after = (auto_resolve_job now input rows).1 in
      (find (has_run_id id) after ≡ some (if prior row then resolve now row else row))
      × All (λ r. prior r ≡ false) after
      × (auto_resolve_job later input after ≡ (0, after))
unfolding auto_resolve_job resolve_before
by_where now later input rows succeeded row id found stored =
    let after =
      update (prior now input.run_id input.job_id succeeded.created_at) (resolve now) rows in
    let gone = none_prior now input.run_id input.job_id succeeded.created_at rows in
    rw found (
      find-resolved now input.run_id input.job_id succeeded.created_at id rows row stored,
      gone,
      rw
          (
            find-resolved now input.run_id input.job_id succeeded.created_at input.run_id rows
                succeeded found,
            changed-created_at now input.run_id input.job_id succeeded.created_at succeeded,
            count_if-none _ after gone,
            update-none _ (resolve later) after gone,
          )
          refl,
    )

-- An open error of the job that comes before the successful run.
abbrev pub IsPriorFailure : AutoResolveInput → (succeeded row : RunRow) → Type 0
IsPriorFailure input succeeded row =
    (row.error_triage ≡ none)
    × (row.status ≡ error)
    × (row.kind ≡ codes "job")
    × (row.job_id ≡ some input.job_id)
    × ((row.created_at < succeeded.created_at)
        ⊎ ((row.created_at ≡ succeeded.created_at) × (text_before row.id input.run_id ≡ true)))

open-none : (o : Option RunErrorTriage) → is_open o ≡ true → o ≡ none
open-none none h = refl
open-none (some t) h = absurd (cc h)

error-status : (x : RunStatus) → is_error x ≡ true → x ≡ error
error-status error h = refl
error-status running h = absurd (cc h)
error-status success h = absurd (cc h)

own-job : (job_id : Text) (o : Option Text) → has_job_id job_id o ≡ true → o ≡ some job_id
own-job job_id none h = absurd (cc h)
own-job job_id (some j) h = ap some (same→eq j job_id h)

prior-IsPriorFailure :
    (input : AutoResolveInput) (succeeded row : RunRow)
    → is_prior_error input.run_id input.job_id succeeded.created_at row ≡ true
    → IsPriorFailure input succeeded row
unfolding is_prior_error is_earlier
prior-IsPriorFailure input succeeded row h = (
  open-none row.error_triage (ground (arith, h)),
  error-status row.status (ground (arith, h)),
  same→eq row.kind job_kind (ground (arith, h)),
  own-job input.job_id row.job_id (ground (arith, h)),
  elim (Bool-cases (ltb row.created_at succeeded.created_at)) [
    | inl t ↦ inl (ground (arith, t))
    | inr f ↦ inr (ground (arith, h, f), ground (arith, h, f))
  ],
)

earlier_holds :
    (row : RunRow) (created_at : ℕ) (id : Text)
    → (row.created_at < created_at)
      ⊎ ((row.created_at ≡ created_at) × (text_before row.id id ≡ true))
    → is_earlier row created_at id ≡ true
unfolding is_earlier
earlier_holds row created_at id (inl before) = ground (arith, before)
earlier_holds row created_at id (inr (at, before)) = ground (arith, at, before)

IsPriorFailure-prior :
    (input : AutoResolveInput) (succeeded row : RunRow)
    → IsPriorFailure input succeeded row
    → is_prior_error input.run_id input.job_id succeeded.created_at row ≡ true
unfolding is_prior_error
IsPriorFailure-prior input succeeded row (still, failed, kind, own, before) =
    rw (still, failed, kind, own)
      (ground (
        arith,
        same_refl job_kind,
        same_refl input.job_id,
        earlier_holds row succeeded.created_at input.run_id before,
      ))

not-prior :
    (input : AutoResolveInput) (succeeded row : RunRow)
    → ¬ IsPriorFailure input succeeded row
    → is_prior_error input.run_id input.job_id succeeded.created_at row ≡ false
not-prior input succeeded row h =
    elim (Bool-cases (is_prior_error input.run_id input.job_id succeeded.created_at row)) [
      | inl t ↦ absurd (h (prior-IsPriorFailure input succeeded row t))
      | inr f ↦ f
    ]

-- A call for a stored run resolves exactly the failures of the same job, open and before that run,
-- with the automatic note and author: any other run keeps its row; none of them is left, and a second
-- call writes nothing.
pub auto_resolve_exact :
    (now later : ℕ) (input : AutoResolveInput) (rows : List RunRow) (succeeded row : RunRow)
    (id : Text)
    → find (has_run_id input.run_id) rows ≡ some succeeded
    → find (has_run_id id) rows ≡ some row
    → let after = (auto_resolve_job now input rows).1 in
      (IsPriorFailure input succeeded row
        → find (has_run_id id) after
          ≡ some (record row {
            error_triage = some resolved;
            triage_note = some (codes "auto-resolved: later success of the same job");
            triaged_at = some now;
            triaged_by = some (codes "system:auto-resolve");
          }))
      × (¬ IsPriorFailure input succeeded row → find (has_run_id id) after ≡ some row)
      × All (λ r. ¬ IsPriorFailure input succeeded r) after
      × (auto_resolve_job later input after ≡ (0, after))
auto_resolve_exact now later input rows succeeded row id found stored =
    let (kept, gone, idle) = by_where now later input rows succeeded row id found stored in
    (
      λ prior. unfold resolve in (rw (IsPriorFailure-prior input succeeded row prior) at kept),
      λ other. rw (not-prior input succeeded row other) at kept,
      All-weaken (λ r. is_prior_error input.run_id input.job_id succeeded.created_at r ≡ false) _ _
          (λ r f prior. cc (f, IsPriorFailure-prior input succeeded r prior)) gone,
      idle,
    )
