-- ===== src/Integrations/Store.antt =====
-- `IntegrationStore` (src/integrations/store.ts): the rows of integrations.
use kody_celld.Prelude.{
  ℕ, Bool, true, false, not, ◌&&◌, ◌||◌, Option, none, some, List, ◌∷◌, Text, codes, same,
}
use kody_celld.Table.{find, delete, update, count_if}
use kody_celld.Act.{Act, Result, ok, err, ◌>>=◌, ◌>>◌, pure, throw, gets, modify}
use kody_celld.Crypto.Keyring.{EncryptedValue, encrypt_secret_value, decrypt_with_keyring, KeyError}
use kody_celld.Integrations.Defs.{
  OauthFlow, authorization_code, client_credentials, IntegrationUsage, IntegrationConfig,
  IntegrationStatus, pending, connected, auth_failed, IntegrationError, integration_not_found,
  key_error, Failure, IntegrationRow, ConnectRow, IntegrationStore, StoreHost, has_name,
}
use kody_celld.Integrations.Requests.{join_with}

abbrev pub Store : Type 0 → Type 0
Store A = Act IntegrationStore IntegrationError A

-- `encryptSecretValue` with the id of the current key; `iv` is what is drawn.
unfoldable pub seal : StoreHost → (iv : List ℕ) → (plaintext : Text) → EncryptedValue
seal host iv plaintext =
    record (encrypt_secret_value host.platform.crypto iv host.keyring.current.key host.user_id
      plaintext) { key_id = some host.keyring.current.id }

abbrev pub opened : Result KeyError Text → Result IntegrationError Text
opened (ok text) = ok text
opened (err e) = err (key_error e)

unfoldable pub unseal : StoreHost → EncryptedValue → Result IntegrationError Text
unseal host value =
    opened (decrypt_with_keyring host.platform.crypto host.keyring host.user_id value)

unfoldable pub row_of : (name : Text) → IntegrationStore → Option IntegrationRow
row_of name s = find (has_name name) s.integrations

abbrev pub found : Option IntegrationRow → Store IntegrationRow
found none = throw integration_not_found
found (some row) = pure row

-- `require`
unfoldable pub require_row : (name : Text) → Store IntegrationRow
unfolding row_of
require_row name s = found (row_of name s) s

-- The argument `clientSecret`: `undefined`, `null` or a text.
pub data ClientSecret : Type 0 where
  keep clear : ClientSecret
  replace : Text → ClientSecret

abbrev pub written_secret : StoreHost → (iv : List ℕ) → ClientSecret → Option EncryptedValue
written_secret host iv (replace text) = some (seal host iv text)
written_secret host iv clear = none
written_secret host iv keep = none

abbrev pub new_integration : IntegrationConfig → Option EncryptedValue → (now : ℕ) → IntegrationRow
new_integration config secret now = record {
  name = config.name;
  config = config;
  client_secret = secret;
  access = none;
  refresh = none;
  token_type = none;
  expires_at = none;
  granted_scope = none;
  status = pending;
  connected_at = none;
  refreshed_at = none;
  last_used_at = none;
  auth_failed_at = none;
  auth_failed_reason = none;
  created_at = now;
  updated_at = now;
}

abbrev pub same_flow : OauthFlow → OauthFlow → Bool
same_flow authorization_code authorization_code = true
same_flow client_credentials client_credentials = true
same_flow authorization_code client_credentials = false
same_flow client_credentials authorization_code = false

abbrev pub same_option : Option Text → Option Text → Bool
same_option none none = true
same_option (some a) (some b) = same a b
same_option none (some b) = false
same_option (some a) none = false

abbrev pub is_code_flow : OauthFlow → Bool
is_code_flow authorization_code = true
is_code_flow client_credentials = false

unfoldable pub credentials_changed : (previous config : IntegrationConfig) → Bool
unfolding join_with
credentials_changed previous config =
    not (same previous.token_url config.token_url)
    || not (same previous.client_id config.client_id)
    || not (same_flow previous.flow config.flow)
    || not (same_option previous.authorize_url config.authorize_url)
    || (not (same (join_with (codes " ") previous.scopes) (join_with (codes " ") config.scopes))
        && is_code_flow config.flow)

abbrev pub failed_at : IntegrationStatus → (now : ℕ) → Option ℕ
failed_at auth_failed now = some now
failed_at pending now = none
failed_at connected now = none

abbrev pub without_tokens :
    IntegrationStatus → Option Failure → (now : ℕ) → IntegrationRow → IntegrationRow
without_tokens status reason now row = record row {
  access = none;
  refresh = none;
  token_type = none;
  expires_at = none;
  granted_scope = none;
  status = status;
  auth_failed_at = failed_at status now;
  auth_failed_reason = reason;
  updated_at = now;
}

unfoldable pub clear_tokens :
    (name : Text)
    → IntegrationStatus
    → Option Failure
    → (now : ℕ) → IntegrationStore
    → IntegrationStore
clear_tokens name status reason now s = record s {
  integrations = update (has_name name) (without_tokens status reason now) s.integrations;
}

-- Whether the argument sets the columns of the client secret.
abbrev pub with_secret : ClientSecret → Option EncryptedValue → IntegrationRow → IntegrationRow
with_secret keep secret row = row
with_secret clear secret row = record row { client_secret = secret }
with_secret (replace text) secret row = record row { client_secret = secret }

abbrev pub configured :
    IntegrationConfig
    → ClientSecret
    → Option EncryptedValue
    → (now : ℕ) → IntegrationRow
    → IntegrationRow
configured config argument secret now row =
    with_secret argument secret (record row { config = config; updated_at = now })

abbrev pub cleared_if : Bool → (name : Text) → (now : ℕ) → IntegrationStore → IntegrationStore
cleared_if true name now s = clear_tokens name pending none now s
cleared_if false name now s = s

abbrev pub save_over :
    StoreHost
    → (iv : List ℕ) → (now : ℕ) → IntegrationConfig
    → ClientSecret
    → Option IntegrationRow
    → IntegrationStore
    → IntegrationStore
save_over host iv now config argument none s = record s {
  integrations = new_integration config (written_secret host iv argument) now ∷ s.integrations;
}
save_over host iv now config argument (some existing) s =
    cleared_if (credentials_changed existing.config config) config.name now (record s {
      integrations =
          update (has_name config.name)
            (configured config argument (written_secret host iv argument) now) s.integrations;
    })

unfoldable pub save :
    StoreHost → (iv : List ℕ) → (now : ℕ) → IntegrationConfig → ClientSecret → Store IntegrationRow
unfolding row_of seal credentials_changed clear_tokens require_row
save host iv now config argument = do
  existing ← gets (row_of config.name)
  modify (save_over host iv now config argument existing)
  require_row config.name

abbrev pub use_by : IntegrationUsage → (now : ℕ) → IntegrationRow → IntegrationRow
use_by usage now row = record row {
  config = record (row.config) { usage = usage };
  updated_at = now;
}

unfoldable pub set_usage : (name : Text) → IntegrationUsage → (now : ℕ) → Store IntegrationRow
unfolding require_row
set_usage name usage now = do
  row ← require_row name
  modify (λ s. record s { integrations = update (has_name name) (use_by usage now) s.integrations })
  require_row name

abbrev pub is_connect_of : (name : Text) → ConnectRow → Bool
is_connect_of name row = same row.name name

-- `delete`; the result is `rowsWritten` of the first statement.
unfoldable pub remove : (name : Text) → Store ℕ
remove name = do
  written ← gets (λ s. count_if (has_name name) s.integrations)
  modify (λ s. record {
    integrations = delete (has_name name) s.integrations;
    connects = delete (is_connect_of name) s.connects;
  })
  pure written

unfoldable pub disconnect : (name : Text) → (now : ℕ) → Store IntegrationRow
unfolding require_row clear_tokens
disconnect name now = do
  row ← require_row name
  modify (clear_tokens name pending none now)
  require_row name
