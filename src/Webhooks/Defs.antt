-- ===== src/Webhooks/Defs.antt =====
-- The tables `webhooks`, `webhook_rate` and `packages` of a user's cell, without the columns that the
-- admission and the rotation do not use.
use kody_celld.Prelude.{ℕ, ◌*◌, Bool, Option, none, some, List, Text, same}
use kody_celld.Table.{find}

pub record WebhookRow : Type 0 where
  pub handle : Text
  pub package_name : Text
  pub webhook_name : Text
  pub secret_hash : Text
  pub previous_secret_hash : Option Text
  pub previous_expires_at : Option ℕ
  pub enabled : Bool
  pub updated_at : ℕ
  pub rotated_at : Option ℕ
  pub last_delivery_at : Option ℕ
  pub deliveries : ℕ

-- An instant's minute is `now.slice(0, 16)` of its ISO text.
pub record RateRow : Type 0 where
  pub handle : Text
  pub minute : ℕ
  pub n : ℕ

pub record WebhookDefinition : Type 0 where
  pub name : Text
  pub rate_limit_per_minute : ℕ

pub record PackageRow : Type 0 where
  pub name : Text
  pub webhooks : List WebhookDefinition

pub record Store : Type 0 where
  pub webhooks : List WebhookRow
  pub rates : List RateRow
  pub packages : List PackageRow

abbrev pub webhook_previous_secret_grace_ms : ℕ
webhook_previous_secret_grace_ms = 24 * 60 * 60 * 1000

abbrev pub has_handle : Text → WebhookRow → Bool
has_handle handle row = same row.handle handle

unfoldable pub webhook_row : Text → Store → Option WebhookRow
webhook_row handle s = find (has_handle handle) s.webhooks

unfoldable pub webhook_definition :
    (package_name webhook_name : Text) → Store → Option WebhookDefinition
webhook_definition package_name webhook_name s =
    elim (find (λ (p : PackageRow). same p.name package_name) s.packages) [
      | none ↦ none
      | some p ↦ find (λ (hook : WebhookDefinition). same hook.name webhook_name) p.webhooks
    ]
