-- ===== src/Jobs/Next.antt =====
-- What `computeNextRun` returns.
use kody_celld.Prelude.{
  ℕ, zero, suc, ◌+◌, ◌*◌, ◌/◌, ◌≤◌, ◌<◌, true, false, Option, some, Text, leb, ltb, ◌≡◌, refl, sym,
  subst, ◌∙◌, arith, inl, inr, Bool-cases, Option-cases,
}
use kody_celld.Act.{Result, ok, err}
use kody_celld.Jobs.Schedule.{
  Error, ParsedCron, ZonedParts, JobSchedule, cron, interval, once, minimum_interval_ms,
  cron_matches, zoned_parts, advance, scan, next_cron_occurrence, or_utc, some_ok, anchor_of,
  compute_next_run,
}

-- `next` is reached from `first` by steps of `every`, passes `now`, and the step before did not.
abbrev pub IsFirstStep : (every now first next : ℕ) → Type 0
IsFirstStep every now first next =
    (steps : ℕ) × (next ≡ first + steps * every)
    × (now < next)
    × ((fewer : ℕ) → fewer < steps → first + fewer * every ≤ now)

add_step : (first every steps : ℕ) → first + every + steps * every ≡ first + suc steps * every
add_step first every steps = grind arith

-- One step more: the new first instant is the one that comes before all others.
steps_before :
    (every now first steps : ℕ)
    → first ≤ now
    → ((fewer : ℕ) → fewer < steps → first + every + fewer * every ≤ now)
    → (fewer : ℕ) → fewer < suc steps
    → first + fewer * every ≤ now
steps_before every now first steps passed before zero h = grind arith
steps_before every now first steps passed before (suc fewer) h =
    subst (λ x. x ≤ now) (add_step first every fewer) (before fewer (omega arith))

advance-IsFirstStep :
    (fuel every now first : ℕ)
    → 1 ≤ every
    → now < fuel + first
    → IsFirstStep every now first (advance fuel every now first)
unfolding advance
advance-IsFirstStep zero every now first positive enough =
    (0, omega arith, omega arith, λ fewer h. absurd (omega arith))
advance-IsFirstStep (suc fuel) every now first positive enough = elim (Bool-cases (leb first now)) [
  | inl passed ↦
      let (steps, reached, late, before) =
        advance-IsFirstStep fuel every now (first + every) positive (omega arith) in
      rw passed (
        suc steps,
        reached ∙ add_step first every steps,
        late,
        steps_before every now first steps (ground arith) before,
      )
  | inr done ↦ rw done (0, omega arith, ground arith, λ fewer h. absurd (omega arith))
]

module _ (zoned : Text → ℕ → Option ZonedParts) where
  -- The candidate is a match of the cron.
  abbrev pub IsMatch : ParsedCron → Text → ℕ → Type 0
  IsMatch c timezone t =
      (parts : ZonedParts) × (zoned_parts zoned timezone t ≡ some parts)
      × (cron_matches c parts ≡ true)

  -- A property of the first candidate and of all later ones.
  split_first :
      (i k : ℕ) (P : ℕ → Type 0)
      → P i
      → ((j : ℕ) → i + 1 ≤ j → j < k → P j)
      → (j : ℕ) → i ≤ j
      → j < k
      → P j
  split_first i k P here later j from below = elim (Bool-cases (ltb i j)) [
    | inl after ↦ later j (ground arith) below
    | inr not_after ↦ subst P (ground arith) here
  ]

  scan-ok :
      (c : ParsedCron) (timezone : Text) (start i left t : ℕ)
      → scan zoned c timezone start i left ≡ ok t
      → (k : ℕ) × (t ≡ start + k * 60000)
        × (i ≤ k)
        × IsMatch c timezone t
        × ((j : ℕ)
            → i ≤ j
            → j < k
            → (parts : ZonedParts) × (zoned_parts zoned timezone (start + j * 60000) ≡ some parts)
              × (cron_matches c parts ≡ false))
  unfolding scan
  scan-ok c timezone start i zero t h = cc
  scan-ok c timezone start i (suc left) t h =
      elim (Option-cases (zoned_parts zoned timezone (start + i * 60000))) [
        | inl unknown ↦ cc (rw (unknown, scan) at h)
        | inr (parts, read) ↦ elim (Bool-cases (cron_matches c parts)) [
          | inl match ↦
              let at_t : start + i * 60000 ≡ t = cc (rw (read, match, scan) at h) in
              (
                i,
                sym at_t,
                omega arith,
                (parts, rw (sym at_t) read, match),
                λ j a b. absurd (omega arith),
              )
          | inr miss ↦
              let (k, at_k, late, matches, before) =
                scan-ok c timezone start (i + 1) left t (rw (read, miss, scan) at h) in
              (k, at_k, omega arith, matches, split_first i k _ (parts, read, miss) before)
        ]
      ]

  -- The occurrence that a cron returns is a whole minute strictly after the given instant; it is a
  -- match in the time zone, and no minute in between is.
  pub next_cron_first :
      (c : ParsedCron) (after : ℕ) (timezone : Text) (t : ℕ)
      → next_cron_occurrence zoned c after timezone ≡ ok t
      → (k : ℕ) × (t ≡ after / 60000 * 60000 + k * 60000)
        × (after < t)
        × IsMatch c timezone t
        × ((j : ℕ) → 1 ≤ j → j < k → ¬ IsMatch c timezone (after / 60000 * 60000 + j * 60000))
  unfolding next_cron_occurrence
  next_cron_first c after timezone t h =
      let (k, at_k, positive, matches, before) = scan-ok c timezone _ 1 576000 t h in
      (
        k,
        at_k,
        omega arith,
        matches,
        λ j from below m.
            let (parts, read, miss) = before j from below in
            let (parts', read', match) = m in cc (read, read', miss, match),
      )

  -- An interval of a minute or more always has a next run: the first instant after `now` that is a
  -- whole number of intervals, at least one, after the last run, or after `now` for a new job.
  pub interval_first :
      (every now : ℕ) (timezone : Option Text) (last_run_at : Option ℕ)
      → minimum_interval_ms ≤ every
      → (t : ℕ) × (compute_next_run zoned (interval every) now timezone last_run_at ≡ ok (some t))
        × IsFirstStep every now (anchor_of now last_run_at + every) t
  unfolding compute_next_run
  interval_first every now timezone last_run_at long =
      let too_short : ltb every minimum_interval_ms ≡ false = ground arith in
      (
        advance (suc now) every now (anchor_of now last_run_at + every),
        rw too_short refl,
        advance-IsFirstStep (suc now) every now (anchor_of now last_run_at + every) (omega arith)
            (omega arith),
      )

  -- A job that has just run is not due again at once.
  pub compute_next_run-late :
      (schedule : JobSchedule) (now : ℕ) (timezone : Option Text) (last t : ℕ)
      → compute_next_run zoned schedule now timezone (some last) ≡ ok (some t)
      → now < t
  unfolding compute_next_run
  compute_next_run-late (cron c) now timezone last t h =
      by_occurrence (next_cron_occurrence zoned c now (or_utc timezone)) refl h
    where
      by_occurrence :
          (r : Result Error ℕ)
          → next_cron_occurrence zoned c now (or_utc timezone) ≡ r
          → some_ok r ≡ ok (some t)
          → now < t
      by_occurrence (ok at) e g =
          let same_at : at ≡ t = cc g in
          let (_, _, late, _, _) = next_cron_first c now (or_utc timezone) at e in
          subst (λ x. now < x) same_at late
      by_occurrence (err e') e g = cc g
  compute_next_run-late (interval every) now timezone last t h =
      elim (Bool-cases (ltb every minimum_interval_ms)) [
        | inl short ↦ cc (rw short at h)
        | inr long ↦
            let (t', found, (_, _, late, _)) =
              interval_first every now timezone (some last) (ground arith) in
            let same_t : t' ≡ t = cc (found, h) in subst (λ x. now < x) same_t late
      ]
  compute_next_run-late (once run_at) now timezone last t h = cc h
