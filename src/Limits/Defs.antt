-- ===== src/Limits/Defs.antt =====
-- The limits and quotas of src/lib/limits.ts.
use kody_celld.Prelude.{ℕ, Bool, ◌||◌, Option, Text, ltb, ◌==◌}

-- The variables that `LimitEnv` names.
pub data LimitVar : Type 0 where
  kody_execute_timeout_ms kody_run_retention_count kody_run_retention_days : LimitVar
  kody_run_log_limit kody_response_limit_bytes kody_audit_retention_count : LimitVar
  kody_mcp_content_limit_bytes kody_webhook_max_body_bytes kody_email_max_bytes : LimitVar
  kody_quota_runs_per_day kody_quota_execute_ms_per_day kody_quota_packages : LimitVar
  kody_quota_secrets kody_quota_jobs kody_quota_blobs kody_quota_blob_bytes : LimitVar
  kody_quota_email_messages kody_quota_email_sends_per_day : LimitVar
  kody_quota_email_receives_per_day kody_quota_webhooks kody_quota_integrations : LimitVar
  kody_quota_mcp_servers : LimitVar

abbrev pub LimitEnv : Type 0
LimitEnv = LimitVar → Option Text

pub record Limits : Type 0 where
  pub execute_timeout_ms : ℕ
  pub run_retention_count : ℕ
  pub run_retention_days : ℕ
  pub run_log_limit : ℕ
  pub response_limit_bytes : ℕ
  pub audit_retention_count : ℕ
  pub mcp_content_limit_bytes : ℕ
  pub webhook_max_body_bytes : ℕ
  pub email_max_bytes : ℕ

pub record Quotas : Type 0 where
  pub runs_per_day : ℕ
  pub execute_ms_per_day : ℕ
  pub packages : ℕ
  pub secrets : ℕ
  pub jobs : ℕ
  pub blobs : ℕ
  pub blob_bytes : ℕ
  pub email_messages : ℕ
  pub email_sends_per_day : ℕ
  pub email_receives_per_day : ℕ
  pub webhooks : ℕ
  pub integrations : ℕ
  pub mcp_servers : ℕ

abbrev pub default_limits : Limits
default_limits = record {
  execute_timeout_ms = 60000;
  run_retention_count = 500;
  run_retention_days = 0;
  run_log_limit = 200;
  response_limit_bytes = 100000;
  audit_retention_count = 10000;
  mcp_content_limit_bytes = 512000;
  webhook_max_body_bytes = 1048576;
  email_max_bytes = 10485760;
}

abbrev pub default_quotas : Quotas
default_quotas = record {
  runs_per_day = 0;
  execute_ms_per_day = 0;
  packages = 0;
  secrets = 0;
  jobs = 0;
  blobs = 0;
  blob_bytes = 0;
  email_messages = 0;
  email_sends_per_day = 0;
  email_receives_per_day = 0;
  webhooks = 0;
  integrations = 0;
  mcp_servers = 0;
}

abbrev pub within_quota : (limit used : ℕ) → Bool
within_quota limit used = (limit == 0) || ltb used limit
