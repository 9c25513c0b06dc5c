-- ===== src/Integrations/Defs.antt =====
-- The tables `integrations` and `integration_connects`, and what the two files name.
use kody_celld.Prelude.{ℕ, Bool, Option, List, Text, same}
use kody_celld.Json.{Json, JsonEntries}
use kody_celld.Crypto.Keyring.{WebCrypto, EncryptedValue, MasterKeyring, KeyError}
use kody_celld.Oauth.Protocol.Redirects.{Url}

pub data OauthFlow : Type 0 where
  authorization_code client_credentials : OauthFlow

pub data TokenAuthStyle : Type 0 where
  body basic : TokenAuthStyle

pub data IntegrationUsage : Type 0 where
  any : IntegrationUsage
  packages : List Text → IntegrationUsage

pub record IntegrationConfig : Type 0 where
  pub name : Text
  pub provider : Text
  pub description : Option Text
  pub flow : OauthFlow
  pub authorize_url : Option Text
  pub token_url : Text
  pub client_id : Text
  pub token_auth_style : TokenAuthStyle
  pub scopes : List Text
  pub scope_separator : Text
  pub authorize_params : List (Text × Text)
  pub allowed_hosts : List Text
  pub usage : IntegrationUsage

pub data IntegrationStatus : Type 0 where
  pending connected auth_failed : IntegrationStatus

-- The codes of the errors, with the code that the provider gave.
pub data IntegrationError : Type 0 where
  integration_not_found integration_flow_mismatch connect_link_invalid : IntegrationError
  connect_state_invalid oauth_denied integration_requires_https : IntegrationError
  integration_client_secret_required invalid_args not_a_url : IntegrationError
  integration_locked integration_host_not_allowed integration_not_connected : IntegrationError
  integration_reconnect_required : IntegrationError
  oauth_token_error : (provider_error : Option Text) → IntegrationError
  key_error : KeyError → IntegrationError

-- Why a connection or an attempt failed; the source keeps a text of it.
pub data Failure : Type 0 where
  expired : Failure
  denied : Text → Failure
  failed : IntegrationError → Failure

-- The three columns of a sealed value are written together. PRIMARY KEY (name)
pub record IntegrationRow : Type 0 where
  pub name : Text
  pub config : IntegrationConfig
  pub client_secret : Option EncryptedValue
  pub access : Option EncryptedValue
  pub refresh : Option EncryptedValue
  pub token_type : Option Text
  pub expires_at : Option ℕ
  pub granted_scope : Option Text
  pub status : IntegrationStatus
  pub connected_at : Option ℕ
  pub refreshed_at : Option ℕ
  pub last_used_at : Option ℕ
  pub auth_failed_at : Option ℕ
  pub auth_failed_reason : Option Failure
  pub created_at : ℕ
  pub updated_at : ℕ

-- PRIMARY KEY (id)
pub record ConnectRow : Type 0 where
  pub id : Text
  pub name : Text
  pub ticket_hash : Text
  pub nonce_hash : Option Text
  pub verifier : Option EncryptedValue
  pub redirect_uri : Text
  pub created_at : ℕ
  pub expires_at : ℕ
  pub started_at : Option ℕ
  pub completed_at : Option ℕ
  pub error : Option Failure

pub record IntegrationStore : Type 0 where
  pub integrations : List IntegrationRow
  pub connects : List ConnectRow

pub record TokenResponse : Type 0 where
  pub access_token : Text
  pub refresh_token : Option Text
  pub token_type : Text
  pub expires_at : Option ℕ
  pub scope : Option Text

pub data TokenGrant : Type 0 where
  by_code : (code redirect_uri code_verifier : Text) → TokenGrant
  by_refresh_token : (refresh_token : Text) → TokenGrant
  by_client : TokenGrant

-- `headers` are the ones besides the content type and `accept`.
pub record TokenRequest : Type 0 where
  pub url : Text
  pub authorization : Option Text
  pub body : List (Text × Text)

pub record TokenReply : Type 0 where
  pub status : ℕ
  pub content_type : Option Text
  pub body : Text

-- The platform: `fetch` is `none` where it throws; `form` is `Object.fromEntries` of
-- URLSearchParams, and `lifetime_ms` a thousand times what a value of `expires_in` is as a number,
-- where that is finite and positive. `set_params` sets the parameters of a URL in turn and is its
-- text then, and `pkce_challenge` is SHA-256 in base64url.
pub record OauthPlatform : Type 0 where
  pub crypto : WebCrypto
  pub parse_url : Text → Option Url
  pub parse_json : Text → Option Json
  pub form : Text → JsonEntries
  pub lifetime_ms : Json → Option ℕ
  pub encode_uri_component : Text → Text
  pub btoa : Text → Text
  pub trim : Text → Text
  pub to_lower : Text → Text
  pub set_params : Url → List (Text × Text) → Text
  pub pkce_challenge : Text → Text
  pub fetch : TokenRequest → Option TokenReply

-- `IntegrationStoreHost` without the tables.
pub record StoreHost : Type 0 where
  pub platform : OauthPlatform
  pub user_id : Text
  pub keyring : MasterKeyring
  pub insecure_allowance : List Text

abbrev pub has_name : Text → IntegrationRow → Bool
has_name name row = same row.name name

abbrev pub has_connect_id : Text → ConnectRow → Bool
has_connect_id id row = same row.id id
