-- ===== src/Gateway/Guarded.antt =====
-- What leaves the gateway.
use kody_celld.Prelude.{true, false, [], ◌∷◌, ◌++◌, ◌≡◌, ◌⊎◌, All}
use kody_celld.Act.{Act, Result}
use kody_celld.Gateway.Policy.{is_host_approved}
use kody_celld.Gateway.Replace.{Collected}
use kody_celld.Gateway.State.{
  OutgoingRequest, Sent, GatewayError, GatewayState, Response, GatewayHost,
}
use kody_celld.Gateway.Inject.{integration_names_of, distinct_refs}
use kody_celld.Gateway.Fetch.{is_own_admin_surface, inspect, has_placeholders, collected, own_bytes}
use kody_celld.Gateway.Pipeline.{host_of, is_transport_allowed}
use kody_celld.Gateway.Steps.{IsSecretSafe, IsTokenSafe}
use kody_celld.Gateway.Items.{IsItemSafe}
use kody_celld.Gateway.Outgoing.{Sends}

module _ (host : GatewayHost) where
  -- What holds of every value that is injected into a request, by the state in which the request
  -- came.
  abbrev pub IsInjectable : OutgoingRequest → Collected → GatewayState → Type 0
  IsInjectable r c s =
      (is_transport_allowed host r ≡ true)
      × IsSecretSafe host c (is_host_approved (host_of host r) s.secret_hosts)
      × All (IsTokenSafe host s (host_of host r)) (integration_names_of c)
      × All (IsItemSafe host s (host_of host r) (is_host_approved (host_of host r) s.secret_hosts))
          (distinct_refs [] c.provider_secrets)

  abbrev untouched : OutgoingRequest → Sent
  untouched r = record {
    method = r.method;
    url = r.url;
    headers = r.headers;
    body = own_bytes host r r.body;
  }

  -- Nothing went out, or the request as it came, without placeholders, or at most twice with values
  -- filled in, each of which was allowed to.
  abbrev pub IsSafe :
      OutgoingRequest → GatewayState → Result GatewayError Response × GatewayState → Type 0
  IsSafe r s (answer, t) =
      (t.sent ≡ s.sent)
      ⊎ ((has_placeholders host r (inspect host r) ≡ false)
          × (is_own_admin_surface host r.url ≡ false)
          × (t.sent ≡ s.sent ++ untouched r ∷ []))
      ⊎ ((is_own_admin_surface host r.url ≡ false)
          × IsInjectable r (collected host r (inspect host r)) s
          × Sends host r 2 s t)
