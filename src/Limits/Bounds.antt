-- ===== src/Limits/Bounds.antt =====
-- The ranges of the limits that the environment gives.
use kody_celld.Prelude.{ℕ, ◌≤◌, Option, none, some, [], ◌∷◌, Text, ◌≡◌, subst, inl, inr, arith}
use kody_celld.Act.{Result, ok, Result-cases, ok-injective}
use kody_celld.Results.{◌>>=◌}
use kody_celld.Integers.{ℤ, pos, negsuc}
use kody_celld.Limits.Defs.{
  LimitVar, LimitEnv, Limits, kody_execute_timeout_ms, kody_run_retention_count,
  kody_run_retention_days, kody_run_log_limit, kody_response_limit_bytes,
  kody_audit_retention_count, kody_mcp_content_limit_bytes, kody_webhook_max_body_bytes,
  kody_email_max_bytes,
}
use kody_celld.Limits.Env.{
  Reason, Error, in_range, integer_range, or_fallback, integer, read, limit_of, limits_from_env,
}

abbrev pub Within : (low high n : ℕ) → Type 0
Within low high n = (low ≤ n) × (n ≤ high)

in_range-Within : (i : ℤ) (low high n : ℕ) → in_range i low (some high) ≡ ok n → Within low high n
in_range-Within (pos m) low high n h = (ground (arith, h), ground (arith, h))
in_range-Within (negsuc m) low high n h = cc h

integer_range-Within :
    (o : Option ℤ) (low high n : ℕ) → integer_range o low (some high) ≡ ok n → Within low high n
integer_range-Within none low high n h = cc h
integer_range-Within (some i) low high n h = in_range-Within i low high n h

or_fallback-Within :
    (t : Text) (fallback low high n : ℕ) (r : Result Reason ℕ)
    → Within low high fallback
    → ((m : ℕ) → r ≡ ok m → Within low high m)
    → or_fallback t fallback r ≡ ok n
    → Within low high n
or_fallback-Within [] fallback low high n r d f h = subst (Within low high) (cc h) d
or_fallback-Within (c ∷ cs) fallback low high n r d f h = f n h

abbrev pub InBounds : Limits → Type 0
InBounds l =
    Within 1000 900000 l.execute_timeout_ms
    × Within 10 100000 l.run_retention_count
    × Within 0 3650 l.run_retention_days
    × Within 0 10000 l.run_log_limit
    × Within 1000 10000000 l.response_limit_bytes
    × Within 100 1000000 l.audit_retention_count
    × Within 10000 50000000 l.mcp_content_limit_bytes
    × Within 1024 50000000 l.webhook_max_body_bytes
    × Within 10000 100000000 l.email_max_bytes

module _ (trim : Text → Text) (number : Text → Option ℤ) where
  integer-Within :
      (o : Option Text) (fallback low high n : ℕ)
      → Within low high fallback
      → integer trim number o fallback low (some high) ≡ ok n
      → Within low high n
  unfolding integer
  integer-Within none fallback low high n d h = subst (Within low high) (cc h) d
  integer-Within (some raw) fallback low high n d h =
      or_fallback-Within (trim raw) fallback low high n (integer_range (number raw) low (some high))
        d (integer_range-Within (number raw) low high) h

  -- One limit of the environment, and what is made of it.
  limit_then :
      (C : Type 0) (env : LimitEnv) (l : Limits) (variable : LimitVar) (fallback low high : ℕ)
      (f : ℕ → Result Error Limits)
      → Within low high fallback
      → ((n : ℕ) → Within low high n → f n ≡ ok l → C)
      → (limit_of trim number env variable fallback low high >>= f) ≡ ok l
      → C
  unfolding read
  limit_then C env l variable fallback low high f d k h =
      elim (Result-cases (integer trim number (env variable) fallback low (some high))) [
        | inl (n, e) ↦ k n (integer-Within (env variable) fallback low high n d e) (rw (e) at h)
        | inr (x, e) ↦ absurd (cc (rw (e) at h))
      ]

  -- Where the environment gives limits, they lie in these ranges.
  pub limits_from_env-InBounds :
      (env : LimitEnv) (l : Limits) → limits_from_env trim number env ≡ ok l → InBounds l
  unfolding limits_from_env
  limits_from_env-InBounds env l =
      let next = limit_then (InBounds l) env l in
      next kody_execute_timeout_ms 60000 1000 900000 _ (omega arith, omega arith)
        (λ x0 w0.
          next kody_run_retention_count 500 10 100000 _ (omega arith, omega arith)
            (λ x1 w1.
              next kody_run_retention_days 0 0 3650 _ (omega arith, omega arith)
                (λ x2 w2.
                  next kody_run_log_limit 200 0 10000 _ (omega arith, omega arith)
                    (λ x3 w3.
                      next kody_response_limit_bytes 100000 1000 10000000 _
                        (omega arith, omega arith)
                        (λ x4 w4.
                          next kody_audit_retention_count 10000 100 1000000 _
                            (omega arith, omega arith)
                            (λ x5 w5.
                              next kody_mcp_content_limit_bytes 512000 10000 50000000 _
                                (omega arith, omega arith)
                                (λ x6 w6.
                                  next kody_webhook_max_body_bytes 1048576 1024 50000000 _
                                    (omega arith, omega arith)
                                    (λ x7 w7.
                                      next kody_email_max_bytes 10485760 10000 100000000 _
                                        (omega arith, omega arith)
                                        (λ x8 w8. λ e.
                                          subst InBounds (ok-injective _ l e)
                                            (w0, w1, w2, w3, w4, w5, w6, w7, w8))))))))))
