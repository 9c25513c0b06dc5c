-- ===== src/Integrations/Tokens.antt =====
-- `IntegrationStore` (src/integrations/store.ts): the tokens.
use kody_celld.Prelude.{
  ℕ, Bool, true, false, not, ◌||◌, Option, none, some, List, Text, codes, same, if◌then◌else◌,
}
use kody_celld.Table.{update}
use kody_celld.Act.{Result, ok, err, ◌>>=◌, ◌>>◌, pure, throw, modify}
use kody_celld.Crypto.Keyring.{EncryptedValue}
use kody_celld.Gateway.Policy.{is_host_approved}
use kody_celld.Integrations.Defs.{
  OauthFlow, authorization_code, client_credentials, IntegrationStatus, pending, connected,
  auth_failed, IntegrationError, integration_not_found, not_a_url, integration_locked,
  integration_host_not_allowed, integration_not_connected, integration_reconnect_required,
  oauth_token_error, failed, IntegrationRow, IntegrationStore, StoreHost, TokenGrant,
  by_refresh_token, by_client, TokenResponse, has_name,
}
use kody_celld.Integrations.Requests.{usage_permits, is_token_expired}
use kody_celld.Integrations.Exchange.{exchange_grant}
use kody_celld.Integrations.Store.{Store, seal, unseal, row_of, require_row, clear_tokens}

-- A result without a store.
abbrev pub lift : {A : Type 0} → Result IntegrationError A → Store A
lift r s = (r, s)

pub record Drawn : Type 0 where
  pub access_iv : List ℕ
  pub refresh_iv : List ℕ

-- `TokenResolution`
pub data Resolution : Type 0 where
  resolved : (token : Text) → IntegrationRow → (refreshed : Bool) → Resolution
  refused : IntegrationError → Option IntegrationRow → Resolution

abbrev pub is_dead : IntegrationError → Bool
is_dead (oauth_token_error (some code)) =
    same code (codes "invalid_grant") || same code (codes "invalid_client")
is_dead _ = false

abbrev pub note_failure : IntegrationError → (now : ℕ) → IntegrationRow → IntegrationRow
note_failure e now row = record row {
  auth_failed_at = some now;
  auth_failed_reason = some (failed e);
  updated_at = now;
}

abbrev pub or_now : Option ℕ → (now : ℕ) → Option ℕ
or_now none now = some now
or_now (some at) now = some at

module _ (host : StoreHost) where
  -- `requestTokens` reads the table, and writes nothing.
  unfoldable pub request_tokens : IntegrationRow → TokenGrant → (now : ℕ) → Store TokenResponse
  unfolding exchange_grant row_of
  request_tokens integration grant now s =
      (exchange_grant host integration (row_of integration.name s) grant now, s)

  abbrev pub new_refresh :
      (iv : List ℕ)
      → (keep_refresh : Bool) → (refresh_token : Option Text) → Option EncryptedValue
      → Option EncryptedValue
  new_refresh iv keep_refresh (some token) old = some (seal host iv token)
  new_refresh iv true none old = old
  new_refresh iv false none old = none

  abbrev pub with_tokens :
      Drawn → TokenResponse → (keep_refresh : Bool) → (now : ℕ) → IntegrationRow → IntegrationRow
  with_tokens drawn tokens keep_refresh now row = record row {
    access = some (seal host drawn.access_iv tokens.access_token);
    refresh = new_refresh drawn.refresh_iv keep_refresh tokens.refresh_token row.refresh;
    token_type = some tokens.token_type;
    expires_at = tokens.expires_at;
    granted_scope = tokens.scope;
    status = connected;
    auth_failed_at = none;
    auth_failed_reason = none;
    connected_at = or_now row.connected_at now;
    refreshed_at = some now;
    updated_at = now;
  }

  unfoldable pub store_tokens :
      (name : Text)
      → Drawn
      → TokenResponse
      → (keep_refresh : Bool) → (now : ℕ) → IntegrationStore
      → IntegrationStore
  store_tokens name drawn tokens keep_refresh now s = record s {
    integrations =
        update (has_name name) (with_tokens drawn tokens keep_refresh now) s.integrations;
  }

  -- What a refresh that failed writes.
  abbrev pub failed_refresh :
      (name : Text) → IntegrationError → (now : ℕ) → IntegrationStore → IntegrationStore
  failed_refresh name e now s =
      if is_dead e
      then clear_tokens name auth_failed (some (failed e)) now s
      else record s { integrations = update (has_name name) (note_failure e now) s.integrations }

  -- `accessSealed!`: the row was just written.
  abbrev pub or_unknown : Option EncryptedValue → Store EncryptedValue
  or_unknown none = throw not_a_url
  or_unknown (some value) = pure value

  abbrev pub refused_now : (name : Text) → IntegrationError → Store Resolution
  refused_now name e = do row ← require_row name; pure (refused e (some row))

  abbrev pub new_token : (name : Text) → Store Resolution
  new_token name = do
    row ← require_row name
    access ← or_unknown row.access
    token ← lift (unseal host access)
    pure (resolved token row true)

  -- `try { … } catch`
  abbrev pub refreshed_by :
      (name : Text)
      → Drawn
      → (now : ℕ) → Result IntegrationError TokenResponse × IntegrationStore
      → Result IntegrationError Resolution × IntegrationStore
  refreshed_by name drawn now (err e, s) = refused_now name e (failed_refresh name e now s)
  refreshed_by name drawn now (ok tokens, s) =
      new_token name (store_tokens name drawn tokens true now s)

  abbrev pub refresh_by :
      (name : Text) → IntegrationRow → TokenGrant → Drawn → (now : ℕ) → Store Resolution
  refresh_by name row grant drawn now s =
      refreshed_by name drawn now (request_tokens row grant now s)

  abbrev pub refresh_sealed :
      Option EncryptedValue → (name : Text) → IntegrationRow → Drawn → (now : ℕ) → Store Resolution
  refresh_sealed none name row drawn now = pure (refused integration_reconnect_required (some row))
  refresh_sealed (some sealed) name row drawn now = do
    refresh_token ← lift (unseal host sealed)
    refresh_by name row (by_refresh_token refresh_token) drawn now

  abbrev pub refresh_flow :
      OauthFlow → (name : Text) → IntegrationRow → Drawn → (now : ℕ) → Store Resolution
  refresh_flow client_credentials name row drawn now = refresh_by name row by_client drawn now
  refresh_flow authorization_code name row drawn now = refresh_sealed row.refresh name row drawn now

  abbrev pub refresh_found :
      Option IntegrationRow → (name : Text) → Drawn → (now : ℕ) → Store Resolution
  refresh_found none name drawn now = pure (refused integration_not_found none)
  refresh_found (some row) name drawn now = refresh_flow row.config.flow name row drawn now

  -- `refreshNow`; a call that runs to its end finds no refresh in flight.
  unfoldable pub refresh : (name : Text) → Drawn → (now : ℕ) → Store Resolution
  unfolding row_of request_tokens store_tokens clear_tokens require_row unseal
  refresh name drawn now s = refresh_found (row_of name s) name drawn now s

  abbrev pub use_row : (now : ℕ) → IntegrationRow → IntegrationRow
  use_row now row = record row { last_used_at = some now }

  abbrev pub hand_out :
      (name : Text) → IntegrationRow → EncryptedValue → (now : ℕ) → Store Resolution
  hand_out name row access now = do
    modify (λ s. record s { integrations = update (has_name name) (use_row now) s.integrations })
    token ← lift (unseal host access)
    pure (resolved token row false)

  abbrev pub not_live :
      OauthFlow → (name : Text) → IntegrationRow → Drawn → (now : ℕ) → Store Resolution
  not_live client_credentials name row drawn now = refresh name drawn now
  not_live authorization_code name row drawn now =
      pure (refused integration_not_connected (some row))

  abbrev pub resolve_live :
      Option EncryptedValue
      → IntegrationStatus
      → (name : Text) → IntegrationRow
      → (force_refresh : Bool) → Drawn
      → (now : ℕ) → Store Resolution
  resolve_live (some access) connected name row force_refresh drawn now =
      if force_refresh || is_token_expired row.expires_at now
      then refresh name drawn now
      else hand_out name row access now
  resolve_live (some access) pending name row force_refresh drawn now =
      not_live row.config.flow name row drawn now
  resolve_live (some access) auth_failed name row force_refresh drawn now =
      not_live row.config.flow name row drawn now
  resolve_live none status name row force_refresh drawn now =
      not_live row.config.flow name row drawn now

  abbrev pub resolve_row :
      Option IntegrationRow
      → (name : Text) → (package_name : Option Text) → (request_host : Text)
      → (force_refresh : Bool) → Drawn
      → (now : ℕ) → Store Resolution
  resolve_row none name package_name request_host force_refresh drawn now =
      pure (refused integration_not_found none)
  resolve_row (some row) name package_name request_host force_refresh drawn now =
      if not (usage_permits row.config.usage package_name)
      then pure (refused integration_locked (some row))
      else if not (is_host_approved request_host row.config.allowed_hosts)
      then pure (refused integration_host_not_allowed (some row))
      else resolve_live row.access row.status name row force_refresh drawn now

  unfoldable pub token_resolve :
      (name : Text)
      → (package_name : Option Text) → (request_host : Text) → (force_refresh : Bool) → Drawn
      → (now : ℕ) → Store Resolution
  unfolding row_of usage_permits is_host_approved is_token_expired refresh unseal
  token_resolve name package_name request_host force_refresh drawn now s =
      resolve_row (row_of name s) name package_name request_host force_refresh drawn now s
