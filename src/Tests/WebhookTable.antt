-- ===== src/Tests/WebhookTable.antt =====
-- A webhook whose secret was rotated.
use kody_celld.Prelude.{◌≡◌, refl, true, none, some, [], ◌∷◌, codes, same, same_iff}
use kody_celld.Table.{find, delete}
use kody_celld.Webhooks.Defs.{WebhookRow, Store, webhook_row, webhook_definition}
use kody_celld.Webhooks.Admit.{rejected, secret_mismatch, webhook_admit}
use kody_celld.Webhooks.Retired.{previous_retired}
use kody_celld.Crypto.Equal.{constant_time_equal, difference}

abbrev hook : WebhookRow
hook = record {
  handle = codes "h";
  package_name = codes "p";
  webhook_name = codes "w";
  secret_hash = codes "new";
  previous_secret_hash = some (codes "old");
  previous_expires_at = some 100000;
  enabled = true;
  updated_at = 0;
  rotated_at = some 0;
  last_delivery_at = none;
  deliveries = 0;
}

abbrev hooks : Store
hooks = record {
  webhooks = hook ∷ [];
  rates = [];
  packages =
      record {
        name = codes "p";
        webhooks = record { name = codes "w"; rate_limit_per_minute = 10 } ∷ [];
      }
      ∷ [];
}

previous_retired_example :
    webhook_admit
      (λ t. t)
      20
      (codes "h")
      (codes "old")
      (webhook_admit (λ t. t) 10 (codes "h") (codes "new") hooks).1
    ≡ (rejected secret_mismatch, (webhook_admit (λ t. t) 10 (codes "h") (codes "new") hooks).1)
unfolding webhook_admit webhook_row find same constant_time_equal difference webhook_definition
    delete
previous_retired_example =
    previous_retired (λ t. t) 10 20 (codes "h") (codes "new") (codes "old") hook hooks refl refl
      (λ e. cc ((same_iff (codes "old") (codes "new")).1 e))
