-- ===== src/Oauth/Tokens/Rotate.antt =====
-- `tokensRefresh`: rotation with reuse detection.
use kody_celld.Prelude.{ℕ, ◌+◌, not, ◌&&◌, Option, none, some, Text, same, leb, if◌then◌else◌}
use kody_celld.Table.{find, delete, update}
use kody_celld.Act.{Act, ◌>>=◌, ◌>>◌, pure, throw, gets, modify}
use kody_celld.Oauth.Defs.{
  GrantRow, is_access, is_refresh, TokenRow, Store, TokenResponse, Error, unknown_refresh_token,
  refresh_token_expired, refresh_token_reused, Vault, refresh_replay_grace_ms, drop_replay, purge,
}
use kody_celld.Oauth.Clients.{touch_client}
use kody_celld.Oauth.Grants.{has_grant_id}
use kody_celld.Oauth.Tokens.Mint.{has_token_hash, in_family, Drawn, mint_pair, family_revoke}

-- A token joined with its grant.
pub record Joined : Type 0 where
  pub token : TokenRow
  pub grant : GrantRow

unfoldable pub join_grant : Option TokenRow → Store → Option Joined
join_grant none s = none
join_grant (some t) s = elim (find (has_grant_id t.grant_id) s.grants) [
  | none ↦ none
  | some g ↦ some (record { token = t; grant = g })
]

-- `… WHERE t.token_hash = ? AND t.kind = 'refresh'`; token_hash is the primary key, so the join
-- has one row at most.
unfoldable pub find_refresh : Text → Store → Option Joined
unfolding join_grant
find_refresh h s = join_grant (find (λ t. has_token_hash h t && is_refresh t.kind) s.tokens) s

-- The clock readings of `tokensRefresh`, in the order in which it makes them.
pub record Readings : Type 0 where
  pub purged_at : ℕ
  pub now : ℕ
  pub minted_at : ℕ
  pub touched_at : ℕ

pub record RefreshInput : Type 0 where
  pub refresh_token : Text
  pub client_id : Text

abbrev pub revoke_family : {A : Type 0} → Text → Error → Act Store Error A
revoke_family family e = do modify (family_revoke family); throw e

-- `if (now - replaced_at <= grace && row.replay_json) { … if (replay) return replay }`
unfoldable pub replay_of : Vault → (now replaced_at : ℕ) → Option Text → Option TokenResponse
replay_of v now replaced_at none = none
replay_of v now replaced_at (some sealed) =
    if leb now (replaced_at + refresh_replay_grace_ms) then v.open_replay sealed else none

-- A token that was rotated out before.
unfoldable pub present_again :
    Vault → (now : ℕ) → TokenRow → (replaced_at : ℕ) → Act Store Error TokenResponse
unfolding replay_of family_revoke
present_again v now row replaced_at = elim (replay_of v now replaced_at row.replay_json) [
  | some replay ↦ pure replay
  | none ↦ revoke_family row.family_id refresh_token_reused
]

-- The writes before `mintPair`: the family's access tokens go, and so do its older snapshots.
unfoldable pub retire : Text → Store → Store
retire family s = record s {
  tokens =
      update (in_family family) drop_replay
        (delete (λ t. in_family family t && is_access t.kind) s.tokens);
}

unfoldable pub mark_replaced : ℕ → Text → Text → Store → Store
mark_replaced now sealed hash s = record s {
  tokens =
      update (has_token_hash hash)
        (λ t. record t { replaced_at = some now; replay_json = some sealed }) s.tokens;
}

unfoldable pub rotate :
    Vault
    → Readings
    → Drawn
    → (iv : Text) → (hash client_id : Text) → Joined
    → Act Store Error TokenResponse
unfolding retire mark_replaced
rotate v at drawn iv hash client_id row = do
  modify (retire row.token.family_id)
  fresh ← mint_pair v at.minted_at drawn row.token.grant_id row.token.family_id row.grant.scope
  modify (mark_replaced at.now (v.seal_replay iv fresh) hash)
  modify (touch_client at.touched_at client_id)
  pure fresh

-- `if (row.replaced_at) …`, else the rotation.
unfoldable pub refresh_current :
    Vault
    → Readings
    → Drawn
    → (iv : Text) → (hash client_id : Text) → Joined
    → (replaced_at : Option ℕ) → Act Store Error TokenResponse
unfolding present_again
refresh_current v at drawn iv hash client_id row none = rotate v at drawn iv hash client_id row
refresh_current v at drawn iv hash client_id row (some replaced_at) =
    present_again v at.now row.token replaced_at

-- What happens to the row of the presented token.
unfoldable pub refresh_row :
    Vault
    → Readings
    → Drawn
    → (iv : Text) → (hash client_id : Text) → Joined
    → Act Store Error TokenResponse
unfolding refresh_current family_revoke
refresh_row v at drawn iv hash client_id row =
    if leb row.token.expires_at at.now
    then revoke_family row.token.family_id refresh_token_expired
    else refresh_current v at drawn iv hash client_id row row.token.replaced_at

unfoldable pub refresh_found :
    Vault
    → Readings
    → Drawn
    → (iv : Text) → (hash client_id : Text) → Option Joined
    → Act Store Error TokenResponse
refresh_found v at drawn iv hash client_id none = throw unknown_refresh_token
refresh_found v at drawn iv hash client_id (some row) =
    if not (same row.grant.client_id client_id)
    then throw unknown_refresh_token
    else refresh_row v at drawn iv hash client_id row

unfoldable pub tokens_refresh :
    Vault → Readings → Drawn → (iv : Text) → RefreshInput → Act Store Error TokenResponse
tokens_refresh v at drawn iv input = do
  modify (purge at.purged_at)
  let hash = v.sha256_hex input.refresh_token
  row ← gets (find_refresh hash)
  refresh_found v at drawn iv hash input.client_id row
