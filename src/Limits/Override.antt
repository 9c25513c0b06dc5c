-- ===== src/Limits/Override.antt =====
-- `parseQuotaOverride` and `effectiveQuotas`.
use kody_celld.Prelude.{
  ℕ, Bool, Option, none, some, List, [], ◌∷◌, Text, codes, same, if◌then◌else◌,
}
use kody_celld.Table.{find}
use kody_celld.Act.{Result, ok, err}
use kody_celld.Integers.{pos, negsuc}
use kody_celld.Json.{
  Json, JsonEntries, null, fractional, boolean, integral, string, array, object, no_entries, entry,
}
use kody_celld.Limits.Defs.{Quotas}

-- `keyof Quotas`
pub data QuotaKey : Type 0 where
  quota_runs_per_day quota_execute_ms_per_day quota_packages quota_secrets : QuotaKey
  quota_jobs quota_blobs quota_blob_bytes quota_email_messages : QuotaKey
  quota_email_sends_per_day quota_email_receives_per_day quota_webhooks : QuotaKey
  quota_integrations quota_mcp_servers : QuotaKey

abbrev pub quota_keys : List QuotaKey
quota_keys =
    quota_runs_per_day ∷ quota_execute_ms_per_day ∷ quota_packages ∷ quota_secrets ∷ quota_jobs
    ∷ quota_blobs ∷ quota_blob_bytes ∷ quota_email_messages ∷ quota_email_sends_per_day
    ∷ quota_email_receives_per_day ∷ quota_webhooks ∷ quota_integrations ∷ quota_mcp_servers ∷ []

abbrev pub key_text : QuotaKey → Text
key_text quota_runs_per_day = codes "runsPerDay"
key_text quota_execute_ms_per_day = codes "executeMsPerDay"
key_text quota_packages = codes "packages"
key_text quota_secrets = codes "secrets"
key_text quota_jobs = codes "jobs"
key_text quota_blobs = codes "blobs"
key_text quota_blob_bytes = codes "blobBytes"
key_text quota_email_messages = codes "emailMessages"
key_text quota_email_sends_per_day = codes "emailSendsPerDay"
key_text quota_email_receives_per_day = codes "emailReceivesPerDay"
key_text quota_webhooks = codes "webhooks"
key_text quota_integrations = codes "integrations"
key_text quota_mcp_servers = codes "mcpServers"

abbrev pub get : QuotaKey → Quotas → ℕ
get quota_runs_per_day q = q.runs_per_day
get quota_execute_ms_per_day q = q.execute_ms_per_day
get quota_packages q = q.packages
get quota_secrets q = q.secrets
get quota_jobs q = q.jobs
get quota_blobs q = q.blobs
get quota_blob_bytes q = q.blob_bytes
get quota_email_messages q = q.email_messages
get quota_email_sends_per_day q = q.email_sends_per_day
get quota_email_receives_per_day q = q.email_receives_per_day
get quota_webhooks q = q.webhooks
get quota_integrations q = q.integrations
get quota_mcp_servers q = q.mcp_servers

-- `Partial<Quotas>`
abbrev pub QuotaOverride : Type 0
QuotaOverride = QuotaKey → Option ℕ

pub data Error : Type 0 where
  not_an_object unknown_quota not_a_count : Error

abbrev pub has_text : Text → QuotaKey → Bool
has_text text k = same (key_text k) text

abbrev pub set_quota : QuotaKey → ℕ → QuotaOverride → QuotaOverride
set_quota k n override j = if same (key_text k) (key_text j) then some n else override j

-- `typeof value === 'number' && Number.isInteger(value) && value >= 0`
abbrev pub count_of : Json → Option ℕ
count_of (integral (pos n)) = some n
count_of (integral (negsuc n)) = none
count_of null = none
count_of fractional = none
count_of (boolean b) = none
count_of (string t) = none
count_of (array vs) = none
count_of (object es) = none

-- One round of the loop, where `later` is what the other entries do to the override.
abbrev pub set_entry :
    Option QuotaKey
    → Option ℕ
    → (QuotaOverride → Result Error QuotaOverride)
    → QuotaOverride
    → Result Error QuotaOverride
set_entry none value later override = err unknown_quota
set_entry (some k) none later override = err not_a_count
set_entry (some k) (some n) later override = later (set_quota k n override)

unfoldable pub set_entries : JsonEntries → QuotaOverride → Result Error QuotaOverride
unfolding find
set_entries no_entries override = ok override
set_entries (entry key value entries) override =
    set_entry (find (has_text key) quota_keys) (count_of value) (set_entries entries) override

unfoldable pub parse_quota_override : Json → Result Error QuotaOverride
unfolding set_entries
parse_quota_override (object entries) = set_entries entries (λ k. none)
parse_quota_override null = err not_an_object
parse_quota_override fractional = err not_an_object
parse_quota_override (boolean b) = err not_an_object
parse_quota_override (integral i) = err not_an_object
parse_quota_override (string t) = err not_an_object
parse_quota_override (array vs) = err not_an_object

abbrev pub or_default : Option ℕ → ℕ → ℕ
or_default none n = n
or_default (some m) n = m

abbrev pub override_all : QuotaOverride → Quotas → Quotas
override_all o d = record {
  runs_per_day = or_default (o quota_runs_per_day) d.runs_per_day;
  execute_ms_per_day = or_default (o quota_execute_ms_per_day) d.execute_ms_per_day;
  packages = or_default (o quota_packages) d.packages;
  secrets = or_default (o quota_secrets) d.secrets;
  jobs = or_default (o quota_jobs) d.jobs;
  blobs = or_default (o quota_blobs) d.blobs;
  blob_bytes = or_default (o quota_blob_bytes) d.blob_bytes;
  email_messages = or_default (o quota_email_messages) d.email_messages;
  email_sends_per_day = or_default (o quota_email_sends_per_day) d.email_sends_per_day;
  email_receives_per_day = or_default (o quota_email_receives_per_day) d.email_receives_per_day;
  webhooks = or_default (o quota_webhooks) d.webhooks;
  integrations = or_default (o quota_integrations) d.integrations;
  mcp_servers = or_default (o quota_mcp_servers) d.mcp_servers;
}

unfoldable pub effective_quotas : Quotas → Option QuotaOverride → Quotas
effective_quotas defaults none = defaults
effective_quotas defaults (some override) = override_all override defaults
