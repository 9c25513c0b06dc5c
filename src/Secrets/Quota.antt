-- ===== src/Secrets/Quota.antt =====
-- The number of secrets under the quota.
use kody_celld.Prelude.{
  ℕ, ◌≤◌, ◌<◌, ◌≢◌, true, false, not, ◌&&◌, Option, List, Text, length, ◌≡◌, arith, inl, inr,
  Bool-cases,
}
use kody_celld.Table.{exists}
use kody_celld.Table.Counts.{length-update}
use kody_celld.Act.{Result, ok, err}
use kody_celld.Crypto.Keyring.{WebCrypto, EncryptedValue, MasterKeyring, encrypt_secret_value}
use kody_celld.Limits.Defs.{within_quota}
use kody_celld.Secrets.Defs.{SecretRow, SecretKey, has_key, Error}
use kody_celld.Secrets.Save.{SaveInput, check_save, write_secret, save_checked, secret_save}

room_for_one : (limit used : ℕ) → limit ≢ 0 → within_quota limit used ≡ true → used < limit
room_for_one limit used positive h = ground (arith, positive, h)

length-write_secret :
    (k : SecretKey) (description : Option Text) (sealed : EncryptedValue) (key_id : Text)
    (now limit : ℕ) (rows : List SecretRow)
    → (exists (has_key k) rows ≡ false → length rows < limit)
    → length rows ≤ limit
    → length (write_secret k description sealed key_id now rows) ≤ limit
unfolding write_secret
length-write_secret k description sealed key_id now limit rows room small =
    elim (Bool-cases (exists (has_key k) rows)) [
      | inl old ↦ rw (old, length-update) small
      | inr new ↦ rw new (omega (arith, room new))
    ]

save_checked-small :
    (w : WebCrypto) (keyring : MasterKeyring) (limit : ℕ) (user_id : Text) (iv : List ℕ) (now : ℕ)
    (input : SaveInput) (r : Result Error SecretKey) (rows : List SecretRow)
    → limit ≢ 0
    → length rows ≤ limit
    → length (save_checked w keyring limit user_id iv now input r rows).1 ≤ limit
unfolding save_checked
save_checked-small w keyring limit user_id iv now input (err e) rows positive small = small
save_checked-small w keyring limit user_id iv now input (ok k) rows positive small =
    elim (Bool-cases (not (exists (has_key k) rows) && not (within_quota limit (length rows)))) [
      | inl full ↦ rw full small
      | inr room ↦ rw room (
          length-write_secret k input.description
            (encrypt_secret_value w iv keyring.current.key user_id input.value) keyring.current.id
            now limit rows
            (λ new. room_for_one limit (length rows) positive (ground (arith, room, new))) small)
    ]

-- With a quota that is not 0, a user who has no more secrets than it allows has no more of them after a
-- call that saves a secret, whatever the call returns.
pub quota_kept :
    (w : WebCrypto) (keyring : MasterKeyring) (limit : ℕ) (user_id : Text) (iv : List ℕ) (now : ℕ)
    (input : SaveInput) (rows : List SecretRow)
    → limit ≢ 0
    → length rows ≤ limit
    → length (secret_save w keyring limit user_id iv now input rows).1 ≤ limit
unfolding secret_save
quota_kept w keyring limit user_id iv now input rows positive small =
    save_checked-small w keyring limit user_id iv now input (check_save w.trim input) rows positive
      small
