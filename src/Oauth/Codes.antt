-- ===== src/Oauth/Codes.antt =====
-- `codeIssue` and `codeConsume`.
use kody_celld.Prelude.{
  ℕ, ◌+◌, Bool, not, ◌||◌, Option, none, some, ◌∷◌, Text, same, leb, if◌then◌else◌,
}
use kody_celld.Table.{find, delete, exists}
use kody_celld.Act.{Act, ◌>>◌, pure, throw, modify}
use kody_celld.Oauth.Defs.{CodeRow, Store, Error, constraint_failed, Vault, code_ttl_ms}

pub record AuthCode : Type 0 where
  pub client_id : Text
  pub user_id : Text
  pub redirect_uri : Text
  pub code_challenge : Text
  pub scope : Text
  pub resource : Text

abbrev pub has_code_hash : Text → CodeRow → Bool
has_code_hash h row = same row.code_hash h

unfoldable pub insert_code : CodeRow → Act Store Error (Unit {0})
insert_code row s =
    if exists (has_code_hash row.code_hash) s.oauth_codes
    then throw constraint_failed s
    else modify (λ t. record t { oauth_codes = row ∷ t.oauth_codes }) s

-- `code` is the token drawn at random.
unfoldable pub code_issue : Vault → (now : ℕ) (code : Text) → AuthCode → Act Store Error Text
unfolding insert_code
code_issue v now code input = do
  insert_code (record {
    code_hash = v.sha256_hex code;
    client_id = input.client_id;
    user_id = input.user_id;
    redirect_uri = input.redirect_uri;
    code_challenge = input.code_challenge;
    scope = input.scope;
    resource = input.resource;
    created_at = now;
    expires_at = now + code_ttl_ms;
  })
  pure code

unfoldable pub of_row : CodeRow → AuthCode
of_row row = record {
  client_id = row.client_id;
  user_id = row.user_id;
  redirect_uri = row.redirect_uri;
  code_challenge = row.code_challenge;
  scope = row.scope;
  resource = row.resource;
}

-- A missing code writes nothing; any other is deleted before its expiry is looked at.
unfoldable pub consume_row : Text → ℕ → Option CodeRow → Store → Option AuthCode × Store
unfolding of_row
consume_row hash now none s = (none, s)
consume_row hash now (some row) s =
    let deleted = exists (has_code_hash hash) s.oauth_codes in
    let s' = record s { oauth_codes = delete (has_code_hash hash) s.oauth_codes } in
    if not deleted || leb row.expires_at now then (none, s') else (some (of_row row), s')

unfoldable pub code_consume : Vault → (now : ℕ) (code : Text) → Store → Option AuthCode × Store
unfolding consume_row
code_consume v now code s =
    let hash = v.sha256_hex code in consume_row hash now (find (has_code_hash hash) s.oauth_codes) s
