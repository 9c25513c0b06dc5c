-- ===== src/Jobs/Schedule.antt =====
-- `cronMatches`, `nextCronOccurrence` and `computeNextRun` of src/jobs/schedule.ts. An instant is a
-- number of milliseconds; a schedule holds what `parseCron` and `parseIntervalMs` read from its text.
use kody_celld.Prelude.{
  ℕ, zero, suc, ◌+◌, ◌*◌, ◌/◌, ◌%◌, Bool, true, false, not, ◌&&◌, ◌||◌, Option, none, some, List,
  [], ◌∷◌, Text, codes, leb, ltb, ◌==◌, if◌then◌else◌,
}
use kody_celld.Act.{Result, ok, err}

pub data Error : Type 0 where
  invalid_schedule job_not_found : Error

pub record ParsedCron : Type 0 where
  pub minute : List ℕ
  pub hour : List ℕ
  pub day_of_month : List ℕ
  pub month : List ℕ
  pub day_of_week : List ℕ
  pub dom_wildcard : Bool
  pub dow_wildcard : Bool

pub record ZonedParts : Type 0 where
  pub minute : ℕ
  pub hour : ℕ
  pub day : ℕ
  pub month : ℕ
  pub weekday : ℕ

pub data JobSchedule : Type 0 where
  cron : ParsedCron → JobSchedule
  interval : (every_ms : ℕ) → JobSchedule
  once : (run_at : ℕ) → JobSchedule

abbrev pub minimum_interval_ms : ℕ
minimum_interval_ms = 60000

-- `set.has(value)`
unfoldable pub has : List ℕ → ℕ → Bool
has [] value = false
has (v ∷ vs) value = (v == value) || has vs value

unfoldable pub cron_matches : ParsedCron → ZonedParts → Bool
unfolding has
cron_matches c parts =
    let dom_ok = has c.day_of_month parts.day in
    let dow_ok = has c.day_of_week parts.weekday in
    if not (has c.minute parts.minute)
    then false
    else if not (has c.hour parts.hour)
    then false
    else if not (has c.month parts.month)
    then false
    else if c.dom_wildcard && c.dow_wildcard
    then true
    else if c.dom_wildcard
    then dow_ok
    else if c.dow_wildcard
    then dom_ok
    else dom_ok || dow_ok

-- `while (next <= now) next += every`; the first argument bounds the rounds.
unfoldable pub advance : ℕ → (every now next : ℕ) → ℕ
advance zero every now next = next
advance (suc fuel) every now next =
    let rest = advance fuel every now (next + every) in if leb next now then rest else next

abbrev pub or_utc : Option Text → Text
or_utc none = codes "UTC"
or_utc (some timezone) = timezone

abbrev pub some_ok : Result Error ℕ → Result Error (Option ℕ)
some_ok (ok at) = ok (some at)
some_ok (err e) = err e

abbrev pub anchor_of : (now : ℕ) → Option ℕ → ℕ
anchor_of now none = now
anchor_of now (some last_run_at) = last_run_at

-- Intl.DateTimeFormat reads the parts of an instant in a time zone, the weekday as its index from
-- Sunday, and throws for a zone that it does not know.
module _ (zoned : (timezone : Text) → ℕ → Option ZonedParts) where
  -- `zonedParts`; the hour 24 of some formatters is 0.
  unfoldable pub zoned_parts : Text → ℕ → Option ZonedParts
  zoned_parts timezone at = elim (zoned timezone at) [
    | none ↦ none
    | some parts ↦ some (record parts { hour = parts.hour % 24 })
  ]

  -- The candidates start + i * 60_000, start + (i + 1) * 60_000, … ; `left` of them remain.
  unfoldable pub scan : ParsedCron → Text → (start i left : ℕ) → Result Error ℕ
  scan c timezone start i zero = err invalid_schedule
  scan c timezone start i (suc left) = elim (zoned_parts timezone (start + i * 60000)) [
    | none ↦ err invalid_schedule
    | some parts ↦ elim (cron_matches c parts) [
      | true ↦ ok (start + i * 60000)
      | false ↦ scan c timezone start (i + 1) left
    ]
  ]

  -- `setUTCSeconds(0, 0)` takes the instant to the start of its minute; 60 * 24 * 400 candidates.
  unfoldable pub next_cron_occurrence : ParsedCron → (after : ℕ) (timezone : Text) → Result Error ℕ
  unfolding scan
  next_cron_occurrence c after timezone = scan c timezone (after / 60000 * 60000) 1 576000

  unfoldable pub compute_next_run :
      JobSchedule
      → (now : ℕ) (timezone : Option Text) (last_run_at : Option ℕ) → Result Error (Option ℕ)
  unfolding next_cron_occurrence advance
  compute_next_run (cron c) now timezone last_run_at =
      some_ok (next_cron_occurrence c now (or_utc timezone))
  compute_next_run (interval every) now timezone last_run_at =
      if ltb every minimum_interval_ms
      then err invalid_schedule
      else ok (some (advance (suc now) every now (anchor_of now last_run_at + every)))
  compute_next_run (once run_at) now timezone (some last_run_at) = ok none
  compute_next_run (once run_at) now timezone none =
      ok (some (if leb run_at now then now else run_at))
