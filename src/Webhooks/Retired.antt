-- ===== src/Webhooks/Retired.antt =====
-- A delivery on the new secret retires the old one.
use kody_celld.Prelude.{
  ℕ, Bool, true, false, not, ◌&&◌, Option, none, some, List, Text, ◌≡◌, ◌≢◌, refl, ap, ◌∙◌, arith,
  inl, inr, Bool-cases, Option-cases, if◌then◌else◌, leb, ◌/◌,
}
use kody_celld.Table.{find, update, changed, delete}
use kody_celld.Table.Laws.{find-update-some, test-find}
use kody_celld.Crypto.Equal.{constant_time_equal, constant_time_equal_iff}
use kody_celld.Webhooks.Defs.{WebhookRow, WebhookDefinition, Store, has_handle, webhook_row}
use kody_celld.Webhooks.Admit.{
  admitted, rejected, secret_mismatch, previous_live, matches_previous, drop_previous,
  count_delivery, is_some, accept_delivery, admit_declared, admit_row, webhook_admit, count_of,
  is_rate_of, is_old_rate,
}

-- The row has the secret, and no other secret is accepted in its place.
abbrev pub IsOnlySecret : Text → Option WebhookRow → Type 0
IsOnlySecret hash row =
    (r : WebhookRow) × (row ≡ some r) × (r.secret_hash ≡ hash) × (r.previous_secret_hash ≡ none)

module _ (handle : Text) (change : WebhookRow → WebhookRow) where
  module _ (same_handle : (r : WebhookRow) → (change r).handle ≡ r.handle) where
    blind :
        (x : WebhookRow)
        → has_handle handle (changed (has_handle handle) change x) ≡ has_handle handle x
    blind x = elim (Bool-cases (has_handle handle x)) [
      | inl t ↦ rw (t, same_handle x) t
      | inr f ↦ rw f f
    ]

    -- The stored row after a write to it.
    find-written :
        (rows : List WebhookRow) (row : WebhookRow)
        → find (has_handle handle) rows ≡ some row
        → find (has_handle handle) (update (has_handle handle) change rows) ≡ some (change row)
    find-written rows row found =
        let hit = test-find (has_handle handle) rows row found in
        find-update-some (has_handle handle) (has_handle handle) change rows row blind found
        ∙ ap some (rw hit refl)

module _ (now : ℕ) (handle : Text) where
  accept-only :
      (row : WebhookRow) (s : Store)
      → webhook_row handle s ≡ some row
      → IsOnlySecret row.secret_hash (webhook_row handle (accept_delivery now true row handle s))
  unfolding accept_delivery webhook_row
  accept-only row s found = elim (Option-cases row.previous_secret_hash) [
    | inl alone ↦ (
      count_delivery now row,
      ap
            (λ previous. find (has_handle handle) (
              update (has_handle handle) (count_delivery now) (
                if true && is_some previous
                then update (has_handle handle) drop_previous s.webhooks
                else s.webhooks)))
            alone
          ∙ find-written handle (count_delivery now) (λ r. refl) s.webhooks row found,
      refl,
      alone,
    )
    | inr (h, previous) ↦ (
      count_delivery now (drop_previous row),
      rw previous (
          find-written handle (count_delivery now) (λ r. refl) _ (drop_previous row)
            (find-written handle drop_previous (λ r. refl) s.webhooks row found)),
      refl,
      refl,
    )
  ]

  declared-only :
      (row : WebhookRow) (d : Option WebhookDefinition) (s : Store)
      → webhook_row handle s ≡ some row
      → (matches_current : Bool)
      → (admit_declared now matches_current row handle d s).0 ≡ admitted false
      → IsOnlySecret row.secret_hash
          (webhook_row handle (admit_declared now matches_current row handle d s).1)
  unfolding admit_declared webhook_row
  declared-only row none s found m h = absurd (cc h)
  declared-only row (some d) s found false h = absurd (ground (arith, h))
  declared-only row (some d) s found true h =
      elim (Bool-cases (
        leb d.rate_limit_per_minute (
          count_of (
            find (is_rate_of handle (now / 60000))
              (delete (is_old_rate handle (now / 60000)) s.rates))))) [
                | inl full ↦ absurd (cc (rw (full, admit_declared) at h))
                | inr room ↦
                    rw (room, admit_declared)
                      (accept-only row
                        (record s { rates = delete (is_old_rate handle (now / 60000)) s.rates })
                        found)
              ]

  admitted-only :
      (provided : Text) (row : WebhookRow) (s : Store)
      → webhook_row handle s ≡ some row
      → (admit_row now provided handle row s).0 ≡ admitted false
      → IsOnlySecret row.secret_hash (webhook_row handle (admit_row now provided handle row s).1)
  unfolding admit_row
  admitted-only provided row s found h =
      elim (Bool-cases (
        not (constant_time_equal provided row.secret_hash)
        && not (matches_previous now provided row))) [
          | inl wrong ↦ absurd (cc (rw (wrong, admit_row) at h))
          | inr right ↦ elim (Bool-cases row.enabled) [
            | inl on ↦
                rw (right, on, admit_row)
                  (declared-only row _ s found _ (rw (right, on, admit_row) at h))
            | inr off ↦ absurd (cc (rw (right, off, admit_row) at h))
          ]
        ]

refused_row :
    (later : ℕ) (provided handle : Text) (row : WebhookRow) (s : Store)
    → constant_time_equal provided row.secret_hash ≡ false
    → row.previous_secret_hash ≡ none
    → admit_row later provided handle row s ≡ (rejected secret_mismatch, s)
unfolding admit_row matches_previous previous_live
refused_row later provided handle row s wrong alone =
    let no_previous : matches_previous later provided row ≡ false =
      rw (alone, previous_live, matches_previous) refl in
    rw (wrong, no_previous, admit_row) refl

refused_other :
    (sha256_hex : Text → Text) (later : ℕ) (handle other hash : Text) (s : Store)
    → IsOnlySecret hash (webhook_row handle s)
    → sha256_hex other ≢ hash
    → webhook_admit sha256_hex later handle other s ≡ (rejected secret_mismatch, s)
unfolding webhook_admit
refused_other sha256_hex later handle other hash s (row, found, current, alone) differs =
    elim (Bool-cases (constant_time_equal (sha256_hex other) row.secret_hash)) [
      | inl equal ↦
          absurd (
            differs
              ((constant_time_equal_iff (sha256_hex other) row.secret_hash).0 equal ∙ current))
      | inr wrong ↦
          rw (found, webhook_admit) (refused_row later (sha256_hex other) handle row s wrong alone)
    ]

-- The first delivery that is accepted on the current secret retires the previous one, whatever is
-- left of its day: from then on a delivery with any secret of another hash is refused as a mismatch
-- and writes nothing.
pub previous_retired :
    (sha256_hex : Text → Text) (now later : ℕ) (handle secret other : Text) (row : WebhookRow)
    (s : Store)
    → webhook_row handle s ≡ some row
    → (webhook_admit sha256_hex now handle secret s).0 ≡ admitted false
    → sha256_hex other ≢ row.secret_hash
    → webhook_admit sha256_hex later handle other (webhook_admit sha256_hex now handle secret s).1
      ≡ (rejected secret_mismatch, (webhook_admit sha256_hex now handle secret s).1)
unfolding webhook_admit
previous_retired sha256_hex now later handle secret other row s found accepted differs =
    refused_other sha256_hex later handle other row.secret_hash _ only differs
  where
    only :
        IsOnlySecret row.secret_hash
          (webhook_row handle (webhook_admit sha256_hex now handle secret s).1)
    only =
        rw (found, webhook_admit)
          (admitted-only now handle (sha256_hex secret) row s found
            (rw (found, webhook_admit) at accepted))
