-- ===== src/Oauth/Tokens/Resolve.antt =====
-- `accessTokenResolve` and `tokenRevoke`.
use kody_celld.Prelude.{ℕ, Bool, not, ◌&&◌, Option, none, some, Text, same, leb, if◌then◌else◌}
use kody_celld.Table.{find, delete}
use kody_celld.Oauth.Defs.{ClientRow, is_access, is_refresh, Store, Vault}
use kody_celld.Oauth.Clients.{has_client_id}
use kody_celld.Oauth.Tokens.Mint.{has_token_hash, family_revoke}
use kody_celld.Oauth.Tokens.Rotate.{Joined, join_grant}

pub record Resolved : Type 0 where
  pub user_id : Text
  pub grant_id : Text
  pub client_id : Text
  pub client_name : Text
  pub scope : Text
  pub expires_at : ℕ

unfoldable pub resolve_joined : (now : ℕ) → Joined → ClientRow → Option Resolved
resolve_joined now row client =
    if leb row.token.expires_at now
    then none
    else some (record {
      user_id = row.grant.user_id;
      grant_id = row.token.grant_id;
      client_id = row.grant.client_id;
      client_name = client.registration.client_name;
      scope = row.grant.scope;
      expires_at = row.token.expires_at;
    })

unfoldable pub join_client : (now : ℕ) → Option Joined → Store → Option Resolved
unfolding resolve_joined
join_client now none s = none
join_client now (some row) s = elim (find (has_client_id row.grant.client_id) s.clients) [
  | none ↦ none
  | some client ↦ resolve_joined now row client
]

unfoldable pub access_token_resolve : Vault → (now : ℕ) (token : Text) → Store → Option Resolved
unfolding join_client join_grant
access_token_resolve v now token s =
    let hash = v.sha256_hex token in
    join_client now (join_grant (find (λ t. has_token_hash hash t && is_access t.kind) s.tokens) s)
      s

pub record RevokeInput : Type 0 where
  pub token : Text
  pub client_id : Text

unfoldable pub revoke_joined : (hash client_id : Text) → Option Joined → Store → Bool × Store
unfolding family_revoke
revoke_joined hash client_id none s = (Bool.false, s)
revoke_joined hash client_id (some row) s =
    if not (same row.grant.client_id client_id)
    then (Bool.false, s)
    else if is_refresh row.token.kind
    then (Bool.true, family_revoke row.token.family_id s)
    else (Bool.true, record s { tokens = delete (has_token_hash hash) s.tokens })

unfoldable pub token_revoke : Vault → RevokeInput → Store → Bool × Store
unfolding revoke_joined join_grant
token_revoke v input s =
    let hash = v.sha256_hex input.token in
    revoke_joined hash input.client_id (join_grant (find (has_token_hash hash) s.tokens) s) s
