-- ===== src/Tests/LedgerTable.antt =====
-- The ledger of deliveries on a concrete delivery.
use kody_celld.Prelude.{◌≡◌, refl, arith, none, some, [], ◌∷◌, codes, same, if◌then◌else◌}
use kody_celld.Table.{find}
use kody_celld.Webhooks.Ledger.{
  LedgerRow, success, ClaimInput, new_delivery, in_progress, conflict, replay, differ, succeeded,
  short_result, status_of, webhook_idempotency_claim, webhook_idempotency_finish,
}
use kody_celld.Webhooks.Delivered.{delivered_once}

abbrev earlier : LedgerRow
earlier = record {
  handle = codes "h";
  key = codes "k1";
  payload_hash = none;
  run_id = some (codes "r1");
  status = success;
  result_json = none;
  created_at = 3;
}

abbrev input : ClaimInput
input = record { handle = codes "h"; key = codes "k2"; payload_hash = some (codes "p") }

delivered_once_example :
    ((webhook_idempotency_claim 5 input (earlier ∷ [])).0 ≡ new_delivery)
    × ((webhook_idempotency_claim 6
          (record input { payload_hash = some (codes "q") })
          (webhook_idempotency_claim 5 input (earlier ∷ [])).1).0
        ≡ (if differ (some (codes "q")) input.payload_hash then conflict else in_progress))
    × ((webhook_idempotency_claim 6
          (record input { payload_hash = some (codes "q") })
          (webhook_idempotency_finish
            (codes "h")
            (codes "k2")
            succeeded
            (some (codes "r2"))
            (some (codes "1"))
            (webhook_idempotency_claim 5 input (earlier ∷ [])).1)).0
        ≡ (if differ (some (codes "q")) input.payload_hash
            then conflict
            else replay
                (some (codes "r2"))
                (short_result (some (codes "1")))
                (status_of succeeded)))
unfolding find same
delivered_once_example =
    delivered_once 5 6 input (some (codes "q")) succeeded (some (codes "r2")) (some (codes "1"))
      (earlier ∷ []) refl (omega arith, tt)
