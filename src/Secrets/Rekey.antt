-- ===== src/Secrets/Rekey.antt =====
-- `secretRekey`, for the table of secrets.
use kody_celld.Prelude.{ℕ, suc, ◌+◌, Bool, not, List, [], ◌∷◌, Text, same}
use kody_celld.Table.{select, update, count_if}
use kody_celld.Act.{Result, ok, err}
use kody_celld.Crypto.Keyring.{
  WebCrypto, MasterKeyring, KeyError, encrypt_secret_value, decrypt_with_keyring,
}
use kody_celld.Secrets.Defs.{SecretRow, has_key, key_of}
use kody_celld.Secrets.Save.{reseal}
use kody_celld.Secrets.Resolve.{value_of}

-- `key_id != ?`
abbrev pub is_stale : (current_id : Text) → SecretRow → Bool
is_stale current_id row = not (same row.key_id current_id)

pub record Rekeyed : Type 0 where
  pub resealed : ℕ
  pub remaining : ℕ

abbrev pub counted : ℕ × List SecretRow → ℕ × List SecretRow
counted (n, rows) = (n + 1, rows)

-- `draw n` is the iv of the n-th round.
module _ (w : WebCrypto) (keyring : MasterKeyring) (user_id : Text) (draw : ℕ → List ℕ) where
  -- UPDATE secrets SET iv, ciphertext, key_id WHERE the key of the row that was read
  unfoldable pub write_resealed :
      (round : ℕ) (text : Text) → SecretRow → List SecretRow → List SecretRow
  unfolding reseal
  write_resealed round text row rows =
      update (has_key (key_of row))
        (reseal (encrypt_secret_value w (draw round) keyring.current.key user_id text)
          keyring.current.id)
        rows

  -- One row that was read, and what the later rounds do to the table; a row that does not open is
  -- left as it is.
  abbrev pub rekey_one :
      (round : ℕ)
      → SecretRow
      → Result KeyError Text
      → (List SecretRow → ℕ × List SecretRow)
      → List SecretRow
      → ℕ × List SecretRow
  rekey_one round row (err e) later rows = later rows
  rekey_one round row (ok text) later rows = counted (later (write_resealed round text row rows))

  unfoldable pub rekey_each : (round : ℕ) → (stale rows : List SecretRow) → ℕ × List SecretRow
  unfolding write_resealed
  rekey_each round [] rows = (0, rows)
  rekey_each round (row ∷ stale) rows =
      rekey_one round row (decrypt_with_keyring w keyring user_id (value_of row))
        (rekey_each (suc round) stale) rows

  unfoldable pub secret_rekey : List SecretRow → Rekeyed × List SecretRow
  unfolding rekey_each
  secret_rekey rows =
      let (resealed, rows') = rekey_each 0 (select (is_stale keyring.current.id) rows) rows in
      (
        record { resealed = resealed; remaining = count_if (is_stale keyring.current.id) rows' },
        rows',
      )
