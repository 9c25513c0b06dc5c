-- ===== src/Integrations/Exchange.antt =====
-- `requestTokens` of `IntegrationStore` (src/integrations/store.ts).
use kody_celld.Prelude.{Bool, true, false, not, ◌&&◌, ℕ, Option, none, some, Text, take}
use kody_celld.Act.{Result, ok, err}
use kody_celld.Results.{◌>>=◌}
use kody_celld.Crypto.Keyring.{EncryptedValue}
use kody_celld.Oauth.Protocol.Redirects.{Url}
use kody_celld.Gateway.Policy.{is_credential_transport_allowed}
use kody_celld.Integrations.Defs.{
  IntegrationError, integration_not_found, integration_requires_https,
  integration_client_secret_required, not_a_url, oauth_token_error, IntegrationRow, StoreHost,
  TokenGrant, by_client, TokenResponse,
}
use kody_celld.Integrations.Requests.{build_token_request, parse_token_response}
use kody_celld.Integrations.Store.{unseal}

abbrev pub open_option : StoreHost → Option EncryptedValue → Result IntegrationError (Option Text)
open_option host none = ok none
open_option host (some value) = unseal host value >>= λ text. ok (some text)

abbrev pub is_by_client : TokenGrant → Bool
is_by_client by_client = true
is_by_client _ = false

abbrev pub is_none {ℓ} : {A : Type ℓ} → Option A → Bool
is_none none = true
is_none (some a) = false

abbrev pub or_error : {A : Type 0} → IntegrationError → Option A → Result IntegrationError A
or_error e none = err e
or_error e (some a) = ok a

-- `if (!test) throw e`
abbrev pub guard : Bool → IntegrationError → Result IntegrationError (Unit {0})
guard true e = ok tt
guard false e = err e

module _ (host : StoreHost) where
  abbrev pub is_allowed : Url → Bool
  is_allowed url =
      is_credential_transport_allowed host.platform.trim host.platform.to_lower url
        host.insecure_allowance

  -- `found` is the row of the integration as it is now. The body is cut off after 64 KiB.
  unfoldable pub exchange_grant :
      (integration : IntegrationRow)
      → (found : Option IntegrationRow) → TokenGrant
      → (now : ℕ) → Result IntegrationError TokenResponse
  unfolding unseal is_credential_transport_allowed build_token_request parse_token_response
  exchange_grant integration found grant now = or_error integration_not_found found >>= λ row.
      or_error not_a_url (host.platform.parse_url integration.config.token_url) >>= λ token_url.
      guard (is_allowed token_url) integration_requires_https >>= λ u.
      open_option host row.client_secret >>= λ client_secret.
      guard (not (is_by_client grant && is_none client_secret)) integration_client_secret_required
      >>= λ v.
          or_error (oauth_token_error none) (
            host.platform.fetch
              (build_token_request host.platform integration.config client_secret grant))
          >>= λ reply.
              parse_token_response host.platform (record reply { body = take 65536 reply.body }) now
