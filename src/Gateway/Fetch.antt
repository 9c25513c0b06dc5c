-- ===== src/Gateway/Fetch.antt =====
-- `FetchGateway.fetch` (src/secrets/fetch-gateway.ts).
use kody_celld.Prelude.{
  ℕ, Bool, false, not, ◌&&◌, ◌||◌, Option, none, some, List, [], ◌∷◌, ◌++◌, Text, codes, same,
  starts_with, leb, length, map, if◌then◌else◌,
}
use kody_celld.Act.{◌>>=◌, ◌>>◌, pure, throw, modify}
use kody_celld.Oauth.Protocol.Redirects.{Url}
use kody_celld.Gateway.Policy.{is_blank}
use kody_celld.Gateway.Placeholders.{
  contains_secret_placeholder, decode_secret_placeholder_delimiters,
}
use kody_celld.Gateway.Replace.{Collected, collect_placeholders, replace_secret_placeholders}
use kody_celld.Gateway.State.{
  OutgoingRequest, Body, no_body, bytes, text, Sent, Outcome, forwarded, not_a_url, unreachable,
  GatewayState, Response, GatewayHost, Gateway,
}
use kody_celld.Gateway.Inject.{Replacements, secret_names_of, integration_names_of, distinct_refs}

-- `original.method !== 'GET' && original.method !== 'HEAD'`
abbrev pub has_body : (method : Text) → Bool
has_body method = not (same method (codes "GET")) && not (same method (codes "HEAD"))

abbrev pub header : (name : Text) → List (Text × Text) → Text
header name [] = []
header name ((n, v) ∷ hs) = if same n name then v else header name hs

unfoldable pub header_text : List (Text × Text) → Text
header_text [] = []
header_text ((n, v) ∷ hs) = n ++ (codes ": " ++ (v ++ 10 ∷ header_text hs))

abbrev pub starts_with_any : List Text → Text → Bool
starts_with_any [] value = false
starts_with_any (p ∷ ps) value = starts_with p value || starts_with_any ps value

-- `textLikeContentType.test(contentType)`, of a value in lower case
unfoldable pub is_text_like : Text → Bool
is_text_like value =
    starts_with_any
      (codes "text/"
        ∷ codes "application/json"
        ∷ codes "application/x-www-form-urlencoded"
        ∷ codes "application/xml"
        ∷ codes "application/graphql"
        ∷ codes "application/javascript"
        ∷ codes "application/x-ndjson"
        ∷ codes "multipart/form-data"
        ∷ [])
      value

abbrev pub max_inspected_body_bytes : ℕ
max_inspected_body_bytes = 2097152

-- What the gateway inspects of a request.
pub record Inspected : Type 0 where
  pub url_text : Text
  pub body : Body

abbrev pub or_no_text : Body → Text
or_no_text no_body = []
or_no_text (bytes bs) = []
or_no_text (text t) = t

abbrev pub provider_name : Text × Text → Text
provider_name r = codes "secret/" ++ (r.0 ++ 58 ∷ r.1)

-- The names that the history of a run shows.
abbrev pub shown_names : Collected → List Text
shown_names c =
    secret_names_of c
    ++ (map (λ n. codes "integration-token:" ++ n) (integration_names_of c)
        ++ map provider_name (distinct_refs [] c.provider_secrets))

abbrev pub replaced_headers : Replacements → List (Text × Text) → List (Text × Text)
replaced_headers rs [] = []
replaced_headers rs ((n, v) ∷ hs) = (n, replace_secret_placeholders v rs) ∷ replaced_headers rs hs

abbrev pub replaced_body : Replacements → Body → Body
replaced_body rs no_body = no_body
replaced_body rs (bytes bs) = bytes bs
replaced_body rs (text t) = text (replace_secret_placeholders t rs)

abbrev pub body_for : (method : Text) → Body → Body
body_for method body = if has_body method then body else no_body

module _ (host : GatewayHost) where
  abbrev pub lower : Text → Text
  lower value = host.store.platform.to_lower value

  abbrev pub is_admin_path : (pathname : Text) → Bool
  is_admin_path pathname = same pathname (codes "/admin") || starts_with (codes "/admin/") pathname

  abbrev pub is_admin_of : Url → Option Url → Bool
  is_admin_of url none = false
  is_admin_of url (some public) =
      same (lower url.hostname) (lower public.hostname) && is_admin_path url.pathname

  unfoldable pub is_own_admin_surface : Url → Bool
  is_own_admin_surface url = is_admin_of url (host.store.platform.parse_url host.public_url)

  abbrev pub is_inspected : List ℕ → (content_type : Text) → Bool
  is_inspected bs content_type =
      leb (length bs) max_inspected_body_bytes
      && (is_blank content_type || is_text_like (lower content_type))

  abbrev pub inspect_body : OutgoingRequest → Option (List ℕ) → Body
  inspect_body r none = no_body
  inspect_body r (some bs) =
      if not (has_body r.method)
      then no_body
      else if is_inspected bs (header (codes "content-type") r.headers)
      then text (host.decode_text bs)
      else bytes bs

  abbrev pub own_bytes : OutgoingRequest → Option (List ℕ) → Body
  own_bytes r none = no_body
  own_bytes r (some bs) = if has_body r.method then bytes bs else no_body

  unfoldable pub inspect : OutgoingRequest → Inspected
  unfolding decode_secret_placeholder_delimiters is_text_like
  inspect r = record {
    url_text = decode_secret_placeholder_delimiters r.url.href;
    body = inspect_body r r.body;
  }

  unfoldable pub has_placeholders : OutgoingRequest → Inspected → Bool
  unfolding contains_secret_placeholder header_text
  has_placeholders r i =
      contains_secret_placeholder i.url_text
      || contains_secret_placeholder (header_text r.headers)
      || contains_secret_placeholder (or_no_text i.body)

  unfoldable pub collected : OutgoingRequest → Inspected → Collected
  unfolding collect_placeholders header_text
  collected r i =
      collect_placeholders host.store.platform.trim
        (i.url_text ++ 10 ∷ (header_text r.headers ++ 10 ∷ or_no_text i.body))

  -- `runRecordGatewayEvent`, kept for the runs that name themselves.
  abbrev pub record_event :
      (run_id : Option Text)
      → Outcome
      → (status : Option ℕ) → (secrets : List Text) → GatewayState
      → GatewayState
  record_event none outcome status secrets s = s
  record_event (some run_id) outcome status secrets s = record s {
    events =
        s.events
        ++ record { run_id = run_id; outcome = outcome; status = status; secrets = secrets } ∷ [];
  }

  abbrev pub answer_of : Option Response → Gateway Response
  answer_of none = throw unreachable
  answer_of (some response) = pure response

  -- `forward`
  unfoldable pub forward : Sent → Gateway Response
  forward r s = answer_of (host.send s.sent r) (record s { sent = s.sent ++ r ∷ [] })

  unfoldable pub forward_untouched : OutgoingRequest → Gateway Response
  unfolding forward
  forward_untouched r = do
    response ←
        forward (record {
          method = r.method;
          url = r.url;
          headers = r.headers;
          body = own_bytes r r.body;
        })
    modify (record_event r.run_id forwarded (some response.status) [])
    pure response

  abbrev pub url_or_throw : Option Url → Gateway Url
  url_or_throw none = throw not_a_url
  url_or_throw (some url) = pure url

  -- `inject`
  unfoldable pub send_injected : OutgoingRequest → Inspected → Replacements → Gateway Response
  unfolding forward replace_secret_placeholders
  send_injected r i rs = do
    url ← url_or_throw (host.store.platform.parse_url (replace_secret_placeholders i.url_text rs))
    forward (record {
      method = r.method;
      url = url;
      headers = replaced_headers rs r.headers;
      body = body_for r.method (replaced_body rs i.body);
    })
