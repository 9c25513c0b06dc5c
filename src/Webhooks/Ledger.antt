-- ===== src/Webhooks/Ledger.antt =====
-- The ledger of deliveries: `webhookIdempotencyClaim` and `webhookIdempotencyFinish`.
use kody_celld.Prelude.{
  ℕ, ◌*◌, Bool, true, false, not, ◌&&◌, Option, none, some, List, ◌∷◌, map, Text, same, contains,
  ltb, length, take, if◌then◌else◌,
}
use kody_celld.Table.{find, select, delete, update}
use kody_celld.Table.Sort.{sort_by}

pub data DeliveryStatus : Type 0 where
  running success failure : DeliveryStatus

abbrev pub is_running : DeliveryStatus → Bool
is_running running = true
is_running success = false
is_running failure = false

-- The table `webhook_idempotency`.
pub record LedgerRow : Type 0 where
  pub handle : Text
  pub key : Text
  pub payload_hash : Option Text
  pub run_id : Option Text
  pub status : DeliveryStatus
  pub result_json : Option Text
  pub created_at : ℕ

pub data Claim : Type 0 where
  new_delivery in_progress conflict : Claim
  replay : (run_id result_json : Option Text) → DeliveryStatus → Claim

pub record ClaimInput : Type 0 where
  pub handle : Text
  pub key : Text
  pub payload_hash : Option Text

abbrev pub is_delivery : (handle key : Text) → LedgerRow → Bool
is_delivery handle key row = same row.handle handle && same row.key key

abbrev pub is_of : Text → LedgerRow → Bool
is_of handle row = same row.handle handle

-- ORDER BY created_at DESC
abbrev pub is_older : LedgerRow → LedgerRow → Bool
is_older row other = ltb row.created_at other.created_at

-- The keys of the newest thousand deliveries to a handle.
unfoldable pub newest_keys : Text → List LedgerRow → List Text
unfolding sort_by
newest_keys handle rows =
    map (λ (r : LedgerRow). r.key) (take 1000 (sort_by is_older (select (is_of handle) rows)))

abbrev pub is_evicted : Text → List LedgerRow → LedgerRow → Bool
is_evicted handle rows row = is_of handle row && not (contains row.key (newest_keys handle rows))

abbrev pub differ : Option Text → Option Text → Bool
differ none stored = false
differ (some given) none = false
differ (some given) (some stored) = not (same stored given)

unfoldable pub claim_existing : (payload_hash : Option Text) → LedgerRow → Claim
claim_existing payload_hash existing =
    if differ payload_hash existing.payload_hash
    then conflict
    else if is_running existing.status
    then in_progress
    else replay existing.run_id existing.result_json existing.status

abbrev pub new_row : (now : ℕ) → ClaimInput → LedgerRow
new_row now input = record {
  handle = input.handle;
  key = input.key;
  payload_hash = input.payload_hash;
  run_id = none;
  status = running;
  result_json = none;
  created_at = now;
}

abbrev pub claim_found :
    Option LedgerRow → (now : ℕ) → ClaimInput → List LedgerRow → Claim × List LedgerRow
claim_found (some existing) now input rows = (claim_existing input.payload_hash existing, rows)
claim_found none now input rows =
    let rows' = new_row now input ∷ rows in
    (new_delivery, delete (is_evicted input.handle rows') rows')

unfoldable pub webhook_idempotency_claim :
    (now : ℕ) → ClaimInput → List LedgerRow → Claim × List LedgerRow
unfolding claim_existing newest_keys
webhook_idempotency_claim now input rows =
    claim_found (find (is_delivery input.handle input.key) rows) now input rows

pub data Outcome : Type 0 where
  succeeded failed : Outcome

abbrev pub status_of : Outcome → DeliveryStatus
status_of succeeded = success
status_of failed = failure

-- A result of more than 64 KiB is not kept.
abbrev pub short_result : Option Text → Option Text
short_result none = none
short_result (some json) = if ltb (64 * 1024) (length json) then none else some json

unfoldable pub webhook_idempotency_finish :
    (handle key : Text)
    → Outcome
    → (run_id result_json : Option Text) → List LedgerRow
    → List LedgerRow
webhook_idempotency_finish handle key outcome run_id result_json rows =
    update (is_delivery handle key)
      (λ row. record row {
        status = status_of outcome;
        run_id = run_id;
        result_json = short_result result_json;
      })
      rows
