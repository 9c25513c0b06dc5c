-- ===== src/Webhooks/Delivered.antt =====
-- A delivery is handled once.
use kody_celld.Prelude.{
  ℕ, ◌<◌, true, false, Option, none, some, List, ◌∷◌, Text, same_refl, contains, ◌≡◌, refl, ap, ◌∙◌,
  arith, All, All-weaken, inl, inr, Bool-cases, if◌then◌else◌,
}
use kody_celld.Table.{find, select, delete}
use kody_celld.Table.Laws.{All-select, find-update-some}
use kody_celld.Table.Sort.{sort_by-first}
use kody_celld.Webhooks.Ledger.{
  is_running, LedgerRow, Claim, new_delivery, in_progress, conflict, replay, ClaimInput,
  is_delivery, is_of, is_older, newest_keys, is_evicted, differ, claim_existing, new_row,
  claim_found, webhook_idempotency_claim, Outcome, succeeded, failed, status_of, short_result,
  webhook_idempotency_finish,
}

differ_self : (o : Option Text) → differ o o ≡ false
differ_self none = refl
differ_self (some t) = rw (same_refl t) refl

module _ (now : ℕ) (input : ClaimInput) (rows : List LedgerRow) where
  abbrev fresh : LedgerRow
  fresh = new_row now input

  -- The newest delivery is not evicted.
  fresh_kept :
      All (λ r. r.created_at < now) rows → is_evicted input.handle (fresh ∷ rows) fresh ≡ false
  unfolding newest_keys select contains
  fresh_kept newer =
      let front = sort_by-first is_older fresh (select (is_of input.handle) rows) (
        All-select _ (is_of input.handle) rows
          (All-weaken _ _ rows (λ r h. ground (arith, h)) newer)) in
      rw (same_refl input.handle, front, same_refl input.key) refl

  find-claimed :
      All (λ r. r.created_at < now) rows
      → find
          (is_delivery input.handle input.key)
          (delete (is_evicted input.handle (fresh ∷ rows)) (fresh ∷ rows))
        ≡ some fresh
  unfolding find delete
  find-claimed newer = rw (fresh_kept newer, same_refl input.handle, same_refl input.key) refl

claim-stored :
    (now : ℕ) (input : ClaimInput) (rows : List LedgerRow) (row : LedgerRow)
    → find (is_delivery input.handle input.key) rows ≡ some row
    → webhook_idempotency_claim now input rows ≡ (claim_existing input.payload_hash row, rows)
unfolding webhook_idempotency_claim
claim-stored now input rows row found = ap (λ o. claim_found o now input rows) found

claim-new :
    (now : ℕ) (input : ClaimInput) (rows : List LedgerRow)
    → find (is_delivery input.handle input.key) rows ≡ none
    → webhook_idempotency_claim now input rows ≡ (
      new_delivery,
      delete (is_evicted input.handle (new_row now input ∷ rows)) (new_row now input ∷ rows),
    )
unfolding webhook_idempotency_claim
claim-new now input rows absent = ap (λ o. claim_found o now input rows) absent

find-finished :
    (handle key : Text) (outcome : Outcome) (run_id result_json : Option Text)
    (rows : List LedgerRow) (row : LedgerRow)
    → find (is_delivery handle key) rows ≡ some row
    → is_delivery handle key row ≡ true
    → find
        (is_delivery handle key)
        (webhook_idempotency_finish handle key outcome run_id result_json rows)
      ≡ some (record row {
        status = status_of outcome;
        run_id = run_id;
        result_json = short_result result_json;
      })
unfolding webhook_idempotency_finish
find-finished handle key outcome run_id result_json rows row found mine =
    find-update-some (is_delivery handle key) (is_delivery handle key) _ rows row
      (λ x. elim (Bool-cases (is_delivery handle key x)) [ inl t ↦ rw t t | inr f ↦ rw f f ]) found
    ∙ ap some (rw mine refl)

finished_status : (outcome : Outcome) → is_running (status_of outcome) ≡ false
finished_status succeeded = refl
finished_status failed = refl

-- A delivery that the ledger has not seen is new once. While it runs, a second claim of its key is in
-- progress, and when it has finished the claim replays its run, its outcome and, if it is not longer
-- than 64 KiB, its result; in both cases a claim with another payload is a conflict, where both
-- payloads are known. The delivery is later than every other in the ledger.
pub delivered_once :
    (now later : ℕ) (input : ClaimInput) (payload : Option Text) (outcome : Outcome)
    (run_id result_json : Option Text) (rows : List LedgerRow)
    → find (is_delivery input.handle input.key) rows ≡ none
    → All (λ r. r.created_at < now) rows
    → ((webhook_idempotency_claim now input rows).0 ≡ new_delivery)
      × ((webhook_idempotency_claim later
            (record input { payload_hash = payload })
            (webhook_idempotency_claim now input rows).1).0
          ≡ (if differ payload input.payload_hash then conflict else in_progress))
      × ((webhook_idempotency_claim later
            (record input { payload_hash = payload })
            (webhook_idempotency_finish input.handle input.key outcome run_id result_json
              (webhook_idempotency_claim now input rows).1)).0
          ≡ (if differ payload input.payload_hash
              then conflict
              else replay run_id (short_result result_json) (status_of outcome)))
unfolding claim_existing
delivered_once now later input payload outcome run_id result_json rows absent newer =
    let again = record input { payload_hash = payload } in
    let claimed = find-claimed now input rows newer in
    let mine : is_delivery input.handle input.key (new_row now input) ≡ true =
      rw (same_refl input.handle, same_refl input.key) refl in
    let finished =
      find-finished input.handle input.key outcome run_id result_json _ (new_row now input) claimed
        mine in
    rw (claim-new now input rows absent) (
      refl,
      ap (λ (c : Claim × List LedgerRow). c.0)
          (claim-stored later again _ (new_row now input) claimed),
      ap (λ (c : Claim × List LedgerRow). c.0) (claim-stored later again _ _ finished)
          ∙ rw (finished_status outcome) refl,
    )
