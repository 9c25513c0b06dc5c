-- ===== src/Gateway/Pipeline.antt =====
-- `FetchGateway.fetch` (src/secrets/fetch-gateway.ts): the order of its checks, and its events.
use kody_celld.Prelude.{
  ℕ, Bool, true, false, not, ◌&&◌, Option, none, some, List, [], Text, ◌==◌, if◌then◌else◌,
}
use kody_celld.Act.{Result, ok, err, ◌>>=◌, ◌>>◌, pure, gets, modify, require}
use kody_celld.Gateway.Policy.{is_host_approved, is_credential_transport_allowed, request_host}
use kody_celld.Gateway.Replace.{Collected}
use kody_celld.Gateway.State.{
  OutgoingRequest, injected, denied, failed, GatewayError, admin_surface_blocked,
  secret_requires_https, secret_host_not_approved, secret_not_found, secret_provider_recursion,
  secret_provider_package_missing, secret_provider_failed, secret_provider_invalid_result,
  secret_provider_host_not_allowed, integration_refused, provider_refused, GatewayState, Response,
  GatewayHost, Gateway,
}
use kody_celld.Gateway.Inject.{
  Replacements, integration_names_of, inject_secrets, inject_integrations, is_empty_list,
}
use kody_celld.Gateway.Ask.{inject_provider_secrets}
use kody_celld.Gateway.Fetch.{
  Inspected, shown_names, is_own_admin_surface, inspect, has_placeholders, collected, record_event,
  forward_untouched, send_injected,
}
use kody_celld.Integrations.Defs.{
  IntegrationError, integration_not_found, integration_locked, integration_host_not_allowed,
  integration_not_connected, integration_reconnect_required, integration_requires_https,
  oauth_token_error, not_a_url, key_error,
}
use kody_celld.Integrations.Tokens.{Drawn}
use kody_celld.Providers.Cell.{not_bound, not_granted, AuthorizeError}

-- The HTTP status of a refusal; other errors than those of the file have 400.
abbrev pub refusal_status : IntegrationError → ℕ
refusal_status integration_not_found = 404
refusal_status integration_locked = 403
refusal_status integration_host_not_allowed = 403
refusal_status integration_not_connected = 401
refusal_status integration_reconnect_required = 401
refusal_status integration_requires_https = 403
refusal_status (oauth_token_error provider_error) = 502
refusal_status not_a_url = 502
refusal_status (key_error e) = 502
refusal_status _ = 400

abbrev pub authorize_status : AuthorizeError → ℕ
authorize_status not_bound = 404
authorize_status not_granted = 403

-- The status with which the gateway refuses; `none` where it throws.
abbrev pub denial_status : GatewayError → Option ℕ
denial_status admin_surface_blocked = some 403
denial_status secret_requires_https = some 403
denial_status secret_host_not_approved = some 403
denial_status secret_not_found = some 404
denial_status secret_provider_recursion = some 403
denial_status secret_provider_package_missing = some 404
denial_status secret_provider_failed = some 502
denial_status secret_provider_invalid_result = some 502
denial_status secret_provider_host_not_allowed = some 403
denial_status (integration_refused e) = some (refusal_status e)
denial_status (provider_refused e) = some (authorize_status e)
denial_status _ = none

module _ (host : GatewayHost) where
  abbrev pub denied_event :
      Option ℕ → (run_id : Option Text) → (secrets : List Text) → GatewayState → GatewayState
  denied_event none run_id secrets s = s
  denied_event (some status) run_id secrets s =
      record_event host run_id denied (some status) secrets s

  -- A refusal is an event of the run.
  abbrev pub noting_denials :
      {A : Type 0}
      → (run_id : Option Text) → (secrets : List Text) → Result GatewayError A × GatewayState
      → Result GatewayError A × GatewayState
  noting_denials run_id secrets (ok a, s) = (ok a, s)
  noting_denials run_id secrets (err e, s) =
      (err e, denied_event (denial_status e) run_id secrets s)

  -- `catch (error) { record(…); throw error }`
  abbrev pub noting_failures :
      {A : Type 0}
      → (run_id : Option Text) → (secrets : List Text) → Result GatewayError A × GatewayState
      → Result GatewayError A × GatewayState
  noting_failures run_id secrets (ok a, s) = (ok a, s)
  noting_failures run_id secrets (err e, s) =
      (err e, record_event host run_id failed none secrets s)

  abbrev pub injected_by :
      (run_id : Option Text) → (secrets : List Text) → Response → Gateway Response
  injected_by run_id secrets response = do
    modify (record_event host run_id injected (some response.status) secrets)
    pure response

  -- A token that was refused is refreshed; where that is refused too, the first response stands.
  abbrev pub retried :
      OutgoingRequest
      → Inspected
      → Collected
      → Response
      → Result GatewayError Replacements × GatewayState
      → Result GatewayError Response × GatewayState
  retried r i c response (ok rs, s) =
      ◌>>=◌ (send_injected host r i rs)
        (λ response'. injected_by r.run_id (shown_names c) response') s
  retried r i c response (err e, s) = elim (denial_status e) [
    | none ↦ (err e, s)
    | some status ↦ injected_by r.run_id (shown_names c) response s
  ]

  abbrev pub after_response :
      OutgoingRequest
      → Inspected
      → Collected
      → (request_host : Text) → (draw : ℕ → Drawn) → (now : ℕ) → Replacements
      → Response
      → Gateway Response
  after_response r i c name draw now rs response s =
      if (response.status == 401) && not (is_empty_list host (integration_names_of c))
      then retried r i c response (
          inject_integrations host name true draw now c.integration_tokens (integration_names_of c)
            rs s)
      else injected_by r.run_id (shown_names c) response s

  abbrev pub send_all :
      OutgoingRequest
      → Inspected
      → Collected
      → (request_host : Text) → (draw : ℕ → Drawn) → (now : ℕ) → Replacements
      → Gateway Response
  send_all r i c name draw now rs s =
      noting_failures r.run_id (shown_names c)
        (◌>>=◌ (send_injected host r i rs) (after_response r i c name draw now rs) s)

  -- The values of all placeholders.
  unfoldable pub replacements_for :
      Collected
      → (request_host : Text) → (host_approved : Bool) → (draw : ℕ → Drawn) → (now : ℕ)
      → Gateway Replacements
  unfolding inject_secrets inject_integrations inject_provider_secrets integration_names_of
  replacements_for c name host_approved draw now = do
    rs ← inject_secrets host c host_approved []
    rs' ←
        inject_integrations host name false draw now c.integration_tokens (integration_names_of c)
          rs
    inject_provider_secrets host name host_approved now c rs'

  abbrev pub host_of : OutgoingRequest → Text
  host_of r = request_host host.store.platform.trim host.store.platform.to_lower r.url

  abbrev pub is_transport_allowed : OutgoingRequest → Bool
  is_transport_allowed r =
      is_credential_transport_allowed host.store.platform.trim host.store.platform.to_lower r.url
        host.private_hosts

  abbrev pub checked_replacements :
      OutgoingRequest → Collected → (draw : ℕ → Drawn) → (now : ℕ) → Gateway Replacements
  checked_replacements r c draw now = do
    require (is_transport_allowed r) secret_requires_https
    secret_hosts ← gets (λ s. s.secret_hosts)
    replacements_for c (host_of r) (is_host_approved (host_of r) secret_hosts) draw now

  abbrev pub fetch_injected :
      OutgoingRequest
      → Inspected
      → Collected
      → (draw again : ℕ → Drawn) → (now : ℕ) → Gateway Response
  fetch_injected r i c draw again now = do
    rs ← λ s. noting_denials r.run_id (shown_names c) (checked_replacements r c draw now s)
    send_all r i c (host_of r) again now rs

  -- `draw` and `again` are what the two rounds over the integrations draw.
  unfoldable pub fetch : OutgoingRequest → (draw again : ℕ → Drawn) → (now : ℕ) → Gateway Response
  fetch r draw again now s =
      if is_own_admin_surface host r.url
      then noting_denials r.run_id [] (err admin_surface_blocked, s)
      else if not (has_placeholders host r (inspect host r))
      then forward_untouched host r s
      else fetch_injected r (inspect host r) (collected host r (inspect host r)) draw again now s
