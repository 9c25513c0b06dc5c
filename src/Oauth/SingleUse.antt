-- ===== src/Oauth/SingleUse.antt =====
-- An authorization code can be exchanged once.
use kody_celld.Prelude.{ℕ, ◌<◌, ◌≡◌, ◌↔◌, none, some, Text, arith, Option-cases, inl, inr}
use kody_celld.Table.{find}
use kody_celld.Table.Laws.{find-delete_self, exists_of_find}
use kody_celld.Oauth.Defs.{CodeRow, Store, Vault}
use kody_celld.Oauth.Codes.{AuthCode, has_code_hash, code_consume, of_row}

module _ (v : Vault) (code : Text) where
  consume_missing :
      (now : ℕ) (s : Store)
      → find (has_code_hash (v.sha256_hex code)) s.oauth_codes ≡ none
      → code_consume v now code s ≡ (none, s)
  unfolding code_consume
  consume_missing now s missing = rw missing

  -- No row of the code is left, whatever the first call returned.
  find-code_consume :
      (now : ℕ) (s : Store)
      → find (has_code_hash (v.sha256_hex code)) (code_consume v now code s).1.oauth_codes ≡ none
  unfolding code_consume
  find-code_consume now s =
      let rows = s.oauth_codes in
      ground (arith, find-delete_self (has_code_hash (v.sha256_hex code)) rows)

  -- Whatever the first exchange of a code returned, every later one is refused and writes nothing.
  pub code_consume_twice :
      (first second : ℕ) (s : Store)
      → code_consume v second code (code_consume v first code s).1
        ≡ (none, (code_consume v first code s).1)
  code_consume_twice first second s =
      consume_missing second (code_consume v first code s).1 (find-code_consume first s)

-- An exchange succeeds exactly if a row of the code is stored and has not expired, and then returns
-- that row's values; the codes of other hashes stay as they were.
pub code_consume_iff :
    (v : Vault) (now : ℕ) (code : Text) (s : Store) (c : AuthCode)
    → ((code_consume v now code s).0 ≡ some c) ↔ (
        (row : CodeRow) × (find (has_code_hash (v.sha256_hex code)) s.oauth_codes ≡ some row)
        × (now < row.expires_at)
        × (c ≡ of_row row))
unfolding code_consume
code_consume_iff v now code s c =
    elim (Option-cases (find (has_code_hash (v.sha256_hex code)) s.oauth_codes)) [
      | inl missing ↦ (λ h. cc (missing, h), λ h. cc (missing, h.1))
      | inr (row, found) ↦ (
        λ h. (
          row,
          found,
          ground (arith, exists_of_find (has_code_hash (v.sha256_hex code)) s.oauth_codes row),
          ground (arith, exists_of_find (has_code_hash (v.sha256_hex code)) s.oauth_codes row),
        ),
        λ h.
            ground (arith, exists_of_find (has_code_hash (v.sha256_hex code)) s.oauth_codes row, h),
      )
    ]
