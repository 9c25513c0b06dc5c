-- ===== src/Limits/Env.antt =====
-- `limitsFromEnv` and `quotasFromEnv`.
use kody_celld.Prelude.{ℕ, Bool, false, ◌||◌, Option, none, some, [], ◌∷◌, Text, ltb, if◌then◌else◌}
use kody_celld.Act.{Result, ok, err}
use kody_celld.Results.{◌>>=◌}
use kody_celld.Integers.{ℤ, pos, negsuc}
use kody_celld.Limits.Defs.{
  LimitVar, LimitEnv, Limits, Quotas, default_limits, default_quotas, kody_execute_timeout_ms,
  kody_run_retention_count, kody_run_retention_days, kody_run_log_limit, kody_response_limit_bytes,
  kody_audit_retention_count, kody_mcp_content_limit_bytes, kody_webhook_max_body_bytes,
  kody_email_max_bytes, kody_quota_runs_per_day, kody_quota_execute_ms_per_day, kody_quota_packages,
  kody_quota_secrets, kody_quota_jobs, kody_quota_blobs, kody_quota_blob_bytes,
  kody_quota_email_messages, kody_quota_email_sends_per_day, kody_quota_email_receives_per_day,
  kody_quota_webhooks, kody_quota_integrations, kody_quota_mcp_servers,
}

pub data Reason : Type 0 where
  not_an_integer out_of_range : Reason

-- The message names the variable in front of the reason.
pub record Error : Type 0 where
  pub variable : LimitVar
  pub reason : Reason

-- `value > max` for an optional `max`
abbrev pub above : ℕ → Option ℕ → Bool
above n none = false
above n (some high) = ltb high n

abbrev pub in_range : ℤ → (low : ℕ) → Option ℕ → Result Reason ℕ
in_range (pos n) low high = if ltb n low || above n high then err out_of_range else ok n
in_range (negsuc n) low high = err out_of_range

abbrev pub integer_range : Option ℤ → (low : ℕ) → Option ℕ → Result Reason ℕ
integer_range none low high = err not_an_integer
integer_range (some i) low high = in_range i low high

abbrev pub or_fallback : Text → (fallback : ℕ) → Result Reason ℕ → Result Reason ℕ
or_fallback [] fallback value = ok fallback
or_fallback (c ∷ cs) fallback value = value

abbrev pub named : LimitVar → Result Reason ℕ → Result Error ℕ
named variable (ok n) = ok n
named variable (err reason) = err (record { variable = variable; reason = reason })

-- `trim` is the platform's; `number raw` is what `Number` reads, where that is an integer.
module _ (trim : Text → Text) (number : Text → Option ℤ) where
  unfoldable pub integer : Option Text → (fallback low : ℕ) → (high : Option ℕ) → Result Reason ℕ
  integer none fallback low high = ok fallback
  integer (some raw) fallback low high =
      or_fallback (trim raw) fallback (integer_range (number raw) low high)

  unfoldable pub read : LimitVar → LimitEnv → (Option Text → Result Reason ℕ) → Result Error ℕ
  read variable env parse = named variable (parse (env variable))

  abbrev pub limit_of : LimitEnv → LimitVar → (fallback low high : ℕ) → Result Error ℕ
  limit_of env variable fallback low high =
      read variable env (λ raw. integer raw fallback low (some high))

  unfoldable pub limits_from_env : LimitEnv → Result Error Limits
  limits_from_env env = do
    execute_timeout_ms ←
        limit_of env kody_execute_timeout_ms default_limits.execute_timeout_ms 1000 900000
    run_retention_count ←
        limit_of env kody_run_retention_count default_limits.run_retention_count 10 100000
    run_retention_days ←
        limit_of env kody_run_retention_days default_limits.run_retention_days 0 3650
    run_log_limit ← limit_of env kody_run_log_limit default_limits.run_log_limit 0 10000
    response_limit_bytes ←
        limit_of env kody_response_limit_bytes default_limits.response_limit_bytes 1000 10000000
    audit_retention_count ←
        limit_of env kody_audit_retention_count default_limits.audit_retention_count 100 1000000
    mcp_content_limit_bytes ←
        limit_of env kody_mcp_content_limit_bytes default_limits.mcp_content_limit_bytes 10000
          50000000
    webhook_max_body_bytes ←
        limit_of env kody_webhook_max_body_bytes default_limits.webhook_max_body_bytes 1024 50000000
    email_max_bytes ←
        limit_of env kody_email_max_bytes default_limits.email_max_bytes 10000 100000000
    ok (record {
      execute_timeout_ms = execute_timeout_ms;
      run_retention_count = run_retention_count;
      run_retention_days = run_retention_days;
      run_log_limit = run_log_limit;
      response_limit_bytes = response_limit_bytes;
      audit_retention_count = audit_retention_count;
      mcp_content_limit_bytes = mcp_content_limit_bytes;
      webhook_max_body_bytes = webhook_max_body_bytes;
      email_max_bytes = email_max_bytes;
    })

  abbrev pub quota_of : LimitEnv → LimitVar → (fallback : ℕ) → Result Error ℕ
  quota_of env variable fallback = read variable env (λ raw. integer raw fallback 0 none)

  unfoldable pub quotas_from_env : LimitEnv → Result Error Quotas
  quotas_from_env env = do
    runs_per_day ← quota_of env kody_quota_runs_per_day default_quotas.runs_per_day
    execute_ms_per_day ←
        quota_of env kody_quota_execute_ms_per_day default_quotas.execute_ms_per_day
    packages ← quota_of env kody_quota_packages default_quotas.packages
    secrets ← quota_of env kody_quota_secrets default_quotas.secrets
    jobs ← quota_of env kody_quota_jobs default_quotas.jobs
    blobs ← quota_of env kody_quota_blobs default_quotas.blobs
    blob_bytes ← quota_of env kody_quota_blob_bytes default_quotas.blob_bytes
    email_messages ← quota_of env kody_quota_email_messages default_quotas.email_messages
    email_sends_per_day ←
        quota_of env kody_quota_email_sends_per_day default_quotas.email_sends_per_day
    email_receives_per_day ←
        quota_of env kody_quota_email_receives_per_day default_quotas.email_receives_per_day
    webhooks ← quota_of env kody_quota_webhooks default_quotas.webhooks
    integrations ← quota_of env kody_quota_integrations default_quotas.integrations
    mcp_servers ← quota_of env kody_quota_mcp_servers default_quotas.mcp_servers
    ok (record {
      runs_per_day = runs_per_day;
      execute_ms_per_day = execute_ms_per_day;
      packages = packages;
      secrets = secrets;
      jobs = jobs;
      blobs = blobs;
      blob_bytes = blob_bytes;
      email_messages = email_messages;
      email_sends_per_day = email_sends_per_day;
      email_receives_per_day = email_receives_per_day;
      webhooks = webhooks;
      integrations = integrations;
      mcp_servers = mcp_servers;
    })
