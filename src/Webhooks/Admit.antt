-- ===== src/Webhooks/Admit.antt =====
-- `webhookRotate` and `webhookAdmit`.
use kody_celld.Prelude.{
  ℕ, ◌+◌, ◌/◌, Bool, true, false, not, ◌&&◌, Option, none, some, List, [], ◌∷◌, Text, same, ◌==◌,
  leb, ltb, if◌then◌else◌,
}
use kody_celld.Table.{find, delete, update, exists}
use kody_celld.Crypto.Equal.{constant_time_equal}
use kody_celld.Webhooks.Defs.{
  WebhookRow, RateRow, WebhookDefinition, Store, webhook_previous_secret_grace_ms, has_handle,
  webhook_row, webhook_definition,
}

pub data Reason : Type 0 where
  unknown_handle secret_mismatch disabled not_declared rate_limited : Reason

pub data WebhookAdmission : Type 0 where
  admitted : (used_previous : Bool) → WebhookAdmission
  rejected : Reason → WebhookAdmission

-- `fresh_hash` is the hash of the secret that was drawn; `false` where the handle is not found.
unfoldable pub webhook_rotate : (now : ℕ) (fresh_hash handle : Text) → Store → Bool × Store
webhook_rotate now fresh_hash handle s = elim (webhook_row handle s) [
  | none ↦ (false, s)
  | some row ↦ (
    true,
    record s {
      webhooks =
          update (has_handle handle)
            (λ r. record r {
              previous_secret_hash = some r.secret_hash;
              previous_expires_at = some (now + webhook_previous_secret_grace_ms);
              secret_hash = fresh_hash;
              rotated_at = some now;
              updated_at = now;
            })
            s.webhooks;
    },
  )
]

abbrev pub is_rate_of : Text → ℕ → RateRow → Bool
is_rate_of handle minute r = same r.handle handle && (r.minute == minute)

abbrev pub is_old_rate : Text → ℕ → RateRow → Bool
is_old_rate handle minute r = same r.handle handle && not (r.minute == minute)

abbrev pub count_of : Option RateRow → ℕ
count_of none = 0
count_of (some r) = r.n

-- `previousLive`
unfoldable pub previous_live : (now : ℕ) → WebhookRow → Bool
previous_live now row = elim row.previous_secret_hash [
  | none ↦ false
  | some h ↦ elim row.previous_expires_at [ none ↦ false | some until ↦ ltb now until ]
]

abbrev pub or_empty : Option Text → Text
or_empty none = []
or_empty (some h) = h

unfoldable pub matches_previous : (now : ℕ) → (provided : Text) → WebhookRow → Bool
unfolding previous_live
matches_previous now provided row =
    previous_live now row && constant_time_equal provided (or_empty row.previous_secret_hash)

-- INSERT … ON CONFLICT(handle, minute) DO UPDATE SET n = n + 1
unfoldable pub add_rate : Text → ℕ → List RateRow → List RateRow
add_rate handle minute rates =
    if exists (is_rate_of handle minute) rates
    then update (is_rate_of handle minute) (λ r. record r { n = r.n + 1 }) rates
    else record { handle = handle; minute = minute; n = 1 } ∷ rates

abbrev pub drop_previous : WebhookRow → WebhookRow
drop_previous r = record r { previous_secret_hash = none; previous_expires_at = none }

abbrev pub count_delivery : ℕ → WebhookRow → WebhookRow
count_delivery now r = record r { last_delivery_at = some now; deliveries = r.deliveries + 1 }

abbrev pub is_some : Option Text → Bool
is_some none = false
is_some (some h) = true

-- The writes of an accepted delivery.
unfoldable pub accept_delivery :
    (now : ℕ) → (matches_current : Bool) → WebhookRow → Text → Store → Store
unfolding add_rate
accept_delivery now matches_current row handle s =
    let retired =
      if matches_current && is_some row.previous_secret_hash
      then update (has_handle handle) drop_previous s.webhooks
      else s.webhooks in
    record s {
      rates = add_rate handle (now / 60000) s.rates;
      webhooks = update (has_handle handle) (count_delivery now) retired;
    }

unfoldable pub admit_declared :
    (now : ℕ)
    → (matches_current : Bool) → WebhookRow
    → Text
    → Option WebhookDefinition
    → Store
    → WebhookAdmission × Store
unfolding accept_delivery
admit_declared now matches_current row handle none s = (rejected not_declared, s)
admit_declared now matches_current row handle (some definition) s =
    let minute = now / 60000 in
    let s' = record s { rates = delete (is_old_rate handle minute) s.rates } in
    if leb definition.rate_limit_per_minute (count_of (find (is_rate_of handle minute) s'.rates))
    then (rejected rate_limited, s')
    else (admitted (not matches_current), accept_delivery now matches_current row handle s')

unfoldable pub admit_row :
    (now : ℕ) → (provided handle : Text) → WebhookRow → Store → WebhookAdmission × Store
unfolding admit_declared matches_previous
admit_row now provided handle row s =
    let matches_current = constant_time_equal provided row.secret_hash in
    if not matches_current && not (matches_previous now provided row)
    then (rejected secret_mismatch, s)
    else if not row.enabled
    then (rejected disabled, s)
    else admit_declared now matches_current row handle
        (webhook_definition row.package_name row.webhook_name s) s

-- The comparison of src/cells/user-cell.ts is over the code units of the two hashes.
unfoldable pub webhook_admit :
    (sha256_hex : Text → Text) → (now : ℕ) (handle secret : Text) → Store → WebhookAdmission × Store
unfolding admit_row
webhook_admit sha256_hex now handle secret s = elim (webhook_row handle s) [
  | none ↦ (rejected unknown_handle, s)
  | some row ↦ admit_row now (sha256_hex secret) handle row s
]
