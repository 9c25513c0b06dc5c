-- ===== src/Tests/JobTable.antt =====
-- The scheduler on concrete inputs.
use kody_celld.Prelude.{
  ℕ, ◌+◌, ◌*◌, ◌/◌, ◌%◌, ◌≤◌, ◌<◌, ◌≡◌, refl, false, true, Option, none, some, List, [], ◌∷◌, Text,
  codes, All,
}
use kody_celld.Act.{ok}
use kody_celld.Jobs.Schedule.{
  ParsedCron, ZonedParts, interval, next_cron_occurrence, compute_next_run, cron_matches,
  zoned_parts,
}
use kody_celld.Jobs.Next.{IsMatch, next_cron_first}
use kody_celld.Jobs.Claim.{JobRow, is_due, claim_each, jobs_claim_due, claim_once}
use kody_celld.Table.{select}
use kody_celld.Table.Sort.{sort_by}

-- A clock that reads the minute of the hour, and knows every zone.
abbrev zoned : Text → ℕ → Option ZonedParts
zoned timezone at =
    some (record { minute = at / 60000 % 60; hour = 0; day = 1; month = 1; weekday = 0 })

abbrev second_minute : ParsedCron
second_minute = record {
  minute = 2 ∷ [];
  hour = 0 ∷ [];
  day_of_month = 1 ∷ [];
  month = 1 ∷ [];
  day_of_week = 0 ∷ [];
  dom_wildcard = true;
  dow_wildcard = true;
}

next_cron_first_example :
    (k : ℕ) × (120000 ≡ 30000 / 60000 * 60000 + k * 60000)
    × (30000 < 120000)
    × IsMatch zoned second_minute (codes "UTC") 120000
    × ((j : ℕ)
        → 1 ≤ j
        → j < k
        → ¬ IsMatch zoned second_minute (codes "UTC") (30000 / 60000 * 60000 + j * 60000))
unfolding next_cron_occurrence zoned_parts cron_matches
next_cron_first_example = next_cron_first zoned second_minute 30000 (codes "UTC") 120000 refl

abbrev job : JobRow
job = record {
  id = codes "j";
  schedule = interval 60000;
  timezone = none;
  enabled = true;
  next_run_at = some 90000;
  last_run_at = some 30000;
  last_status = none;
  updated_at = 0;
}

abbrev jobs : List JobRow
jobs = job ∷ []

claim_once_example :
    All (λ r. is_due 90000 r ≡ false) (jobs_claim_due zoned 90000 jobs).1
    × (jobs_claim_due zoned 90000 (jobs_claim_due zoned 90000 jobs).1
        ≡ (ok [], (jobs_claim_due zoned 90000 jobs).1))
unfolding jobs_claim_due claim_each sort_by select compute_next_run
claim_once_example = claim_once zoned 90000 jobs jobs refl
