-- ===== src/Gateway/State.antt =====
-- What the gateway reads and writes, and what it is given.
use kody_celld.Prelude.{ℕ, Option, List, Text}
use kody_celld.Json.{Json}
use kody_celld.Act.{Act}
use kody_celld.Crypto.Keyring.{KeyError}
use kody_celld.Oauth.Protocol.Redirects.{Url}
use kody_celld.Integrations.Defs.{IntegrationError, IntegrationStore, StoreHost}
use kody_celld.Providers.Defs.{Binding, ProviderCell}
use kody_celld.Providers.Cell.{AuthorizeError}

-- A request of the user's code, as the platform gives it. `headers` are without `x-kody-run`.
pub record OutgoingRequest : Type 0 where
  pub method : Text
  pub url : Url
  pub headers : List (Text × Text)
  pub body : Option (List ℕ)
  pub run_id : Option Text

pub data Body : Type 0 where
  no_body : Body
  bytes : List ℕ → Body
  text : Text → Body

-- A request that leaves the gateway.
pub record Sent : Type 0 where
  pub method : Text
  pub url : Url
  pub headers : List (Text × Text)
  pub body : Body

pub data Outcome : Type 0 where
  forwarded injected denied failed : Outcome

-- `secrets` names what was asked for, never a value.
pub record GatewayEvent : Type 0 where
  pub run_id : Text
  pub outcome : Outcome
  pub status : Option ℕ
  pub secrets : List Text

-- What the gateway answers itself, and what it throws.
pub data GatewayError : Type 0 where
  admin_surface_blocked secret_requires_https secret_host_not_approved : GatewayError
  secret_not_found secret_provider_recursion secret_provider_package_missing : GatewayError
  secret_provider_failed secret_provider_invalid_result : GatewayError
  secret_provider_host_not_allowed not_a_url unreachable : GatewayError
  integration_refused integration_thrown : IntegrationError → GatewayError
  provider_refused : AuthorizeError → GatewayError
  unreadable_secret : KeyError → GatewayError

pub record GatewayState : Type 0 where
  pub cell : ProviderCell
  pub integrations : IntegrationStore
  pub secret_hosts : List Text
  pub events : List GatewayEvent
  pub sent : List Sent

pub record Response : Type 0 where
  pub status : ℕ
  pub body : Text

-- The deployment, the user and the run, and the platform: `send` is what the world answers to a
-- request after those that were sent before, and `none` where `fetch` throws; `run_provider` is the
-- result of a sealed run of a provider's entry, and `none` where it fails.
pub record GatewayHost : Type 0 where
  pub store : StoreHost
  pub public_url : Text
  pub private_hosts : List Text
  pub package_name : Option Text
  pub cache_ttl_ms : ℕ
  pub decode_text : List ℕ → Text
  pub send : List Sent → Sent → Option Response
  pub run_provider : Binding → (entry ref : Text) → Option Json

abbrev pub Gateway : Type 0 → Type 0
Gateway A = Act GatewayState GatewayError A
