-- ===== src/Oauth/Tokens/Mint.antt =====
-- `mintPair`, `tokensIssue` and `familyRevoke`.
use kody_celld.Prelude.{ℕ, ◌+◌, ◌*◌, Bool, none, some, ◌∷◌, Text, same, if◌then◌else◌}
use kody_celld.Table.{delete, update, exists}
use kody_celld.Act.{Act, ◌>>◌, pure, throw, modify}
use kody_celld.Oauth.Defs.{
  TokenKind, access, refresh, TokenRow, Store, TokenResponse, Error, constraint_failed, Vault,
  access_token_ttl_seconds, refresh_token_ttl_ms, purge,
}
use kody_celld.Oauth.Clients.{touch_client}
use kody_celld.Oauth.Grants.{has_grant_id}

abbrev pub has_token_hash : Text → TokenRow → Bool
has_token_hash h t = same t.token_hash h

abbrev pub in_family : Text → TokenRow → Bool
in_family family t = same t.family_id family

unfoldable pub insert_token : TokenRow → Act Store Error (Unit {0})
insert_token row s =
    if exists (has_token_hash row.token_hash) s.tokens
    then throw constraint_failed s
    else modify (λ t. record t { tokens = row ∷ t.tokens }) s

unfoldable pub touch_grant : ℕ → Text → Store → Store
touch_grant now id s = record s {
  grants = update (has_grant_id id) (λ g. record g { last_used_at = some now }) s.grants;
}

-- The two texts that `randomToken` draws.
pub record Drawn : Type 0 where
  pub access_token : Text
  pub refresh_token : Text

-- The row of a token at its birth.
abbrev pub new_token : Text → TokenKind → Text → Text → ℕ → ℕ → TokenRow
new_token hash kind grant_id family_id now expires_at = record {
  token_hash = hash;
  kind = kind;
  grant_id = grant_id;
  family_id = family_id;
  created_at = now;
  expires_at = expires_at;
  replaced_at = none;
  replay_json = none;
}

-- The second half of `mintPair`, which writes the refresh token.
unfoldable pub mint_refresh :
    Vault → (now : ℕ) → Drawn → (grant_id family_id scope : Text) → Act Store Error TokenResponse
unfolding insert_token touch_grant
mint_refresh v now drawn grant_id family_id scope = do
  insert_token (
      new_token (v.sha256_hex drawn.refresh_token) refresh grant_id family_id now
        (now + refresh_token_ttl_ms))
  modify (touch_grant now grant_id)
  pure (record {
    access_token = drawn.access_token;
    expires_in = access_token_ttl_seconds;
    refresh_token = drawn.refresh_token;
    scope = scope;
  })

unfoldable pub mint_pair :
    Vault → (now : ℕ) → Drawn → (grant_id family_id scope : Text) → Act Store Error TokenResponse
unfolding insert_token mint_refresh
mint_pair v now drawn grant_id family_id scope = do
  insert_token (
      new_token (v.sha256_hex drawn.access_token) access grant_id family_id now
        (now + access_token_ttl_seconds * 1000))
  mint_refresh v now drawn grant_id family_id scope

pub record IssueInput : Type 0 where
  pub grant_id : Text
  pub client_id : Text
  pub scope : Text

unfoldable pub tokens_issue :
    Vault
    → (purged_at touched_at minted_at : ℕ) → Drawn
    → (drawn_family : Text) → IssueInput
    → Act Store Error TokenResponse
tokens_issue v purged_at touched_at minted_at drawn drawn_family input = do
  modify (purge purged_at)
  modify (touch_client touched_at input.client_id)
  mint_pair v minted_at drawn input.grant_id drawn_family input.scope

unfoldable pub family_revoke : Text → Store → Store
family_revoke family s = record s { tokens = delete (in_family family) s.tokens }
