-- ===== src/Oauth/Rotation.antt =====
-- What one rotation does to the store, on each of its three outcomes.
use kody_celld.Prelude.{◌+◌, ◌*◌, Bool, ◌≡◌, ◌∷◌, Text, arith, if◌then◌else◌}
use kody_celld.Table.{exists}
use kody_celld.Act.{Result, ok, err}
use kody_celld.Oauth.Defs.{
  access, refresh, TokenRow, Store, TokenResponse, Error, constraint_failed, Vault,
  access_token_ttl_seconds, refresh_token_ttl_ms,
}
use kody_celld.Oauth.Clients.{touch_client}
use kody_celld.Oauth.Tokens.{
  has_token_hash, insert_token, touch_grant, new_token, mint_pair, retire, mark_replaced, rotate,
  tokens_refresh, Joined, Drawn, Readings,
}

-- `tokensRefresh` on a token text and the client that presents it.
abbrev pub refresh_call :
    Vault
    → Readings
    → Drawn
    → (iv token client_id : Text) → Store
    → Result Error TokenResponse × Store
refresh_call v at drawn iv token client_id =
    tokens_refresh v at drawn iv (record { refresh_token = token; client_id = client_id })

module _ (v : Vault) (at : Readings) (drawn : Drawn) (iv hash client_id : Text) (row : Joined)
    (s : Store) where
  abbrev pub retired : Store
  retired = retire row.token.family_id s

  abbrev pub access_row : TokenRow
  access_row =
      new_token (v.sha256_hex drawn.access_token) access row.token.grant_id row.token.family_id
        at.minted_at (at.minted_at + access_token_ttl_seconds * 1000)

  abbrev pub refresh_token_row : TokenRow
  refresh_token_row =
      new_token (v.sha256_hex drawn.refresh_token) refresh row.token.grant_id row.token.family_id
        at.minted_at (at.minted_at + refresh_token_ttl_ms)

  abbrev pub response : TokenResponse
  response = record {
    access_token = drawn.access_token;
    expires_in = access_token_ttl_seconds;
    refresh_token = drawn.refresh_token;
    scope = row.grant.scope;
  }

  abbrev pub with_access : Store
  with_access = record (retired) { tokens = access_row ∷ retired.tokens }

  abbrev pub with_both : Store
  with_both = record (retired) { tokens = refresh_token_row ∷ access_row ∷ retired.tokens }

  abbrev pub rotated : Store
  rotated = touch_client at.touched_at client_id (
      mark_replaced at.now (v.seal_replay iv response) hash
        (touch_grant at.minted_at row.token.grant_id with_both))

  -- The two hashes that have to be free.
  abbrev pub access_taken : Bool
  access_taken = exists (has_token_hash access_row.token_hash) retired.tokens

  abbrev pub refresh_taken : Bool
  refresh_taken = exists (has_token_hash refresh_token_row.token_hash) (access_row ∷ retired.tokens)

  pub rotate_outcomes : rotate v at drawn iv hash client_id row s ≡ (
      if access_taken
      then (err constraint_failed, retired)
      else if refresh_taken
      then (err constraint_failed, with_access)
      else (ok response, rotated))
  unfolding rotate mint_pair insert_token exists
  rotate_outcomes = ground arith
