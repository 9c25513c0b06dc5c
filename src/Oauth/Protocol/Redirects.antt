-- ===== src/Oauth/Protocol/Redirects.antt =====
-- `validateRedirectUri`, `redirectUriMatches` and `isLoopbackHost` (src/secrets/host-policy.ts).
use kody_celld.Prelude.{
  Bool, true, false, not, ◌&&◌, ◌||◌, Option, none, some, List, [], ◌∷◌, Text, codes, same,
  contains, ends_with, ltb, length, if◌then◌else◌,
}
use kody_celld.Table.{exists}
use kody_celld.Act.{Result, ok, err}
use kody_celld.Json.{Json, string}

-- The codes of the errors; `not_a_url` is the TypeError of `new URL`.
pub data ProtocolError : Type 0 where
  invalid_client_metadata invalid_redirect_uri invalid_request : ProtocolError
  invalid_client unsupported_response_type invalid_target not_a_url : ProtocolError

-- The parts of a URL, and its serialization.
pub record Url : Type 0 where
  pub protocol : Text
  pub username : Text
  pub password : Text
  pub hostname : Text
  pub pathname : Text
  pub search : Text
  pub hash : Text
  pub href : Text

unfoldable pub is_loopback_host : Text → Bool
is_loopback_host host =
    same host (codes "localhost")
    || ends_with (codes ".localhost") host
    || same host (codes "127.0.0.1")
    || same host (codes "[::1]")
    || same host (codes "::1")

-- A text is true unless it is empty.
abbrev pub is_truthy : Text → Bool
is_truthy [] = false
is_truthy (c ∷ cs) = true

abbrev pub is_refused_scheme : Text → Bool
is_refused_scheme protocol =
    same protocol (codes "javascript:")
    || same protocol (codes "data:")
    || same protocol (codes "file:")

-- What `validateRedirectUri` makes of the URL that it parsed.
unfoldable pub check_redirect : Option Url → Result ProtocolError Text
unfolding is_loopback_host
check_redirect none = err invalid_redirect_uri
check_redirect (some url) =
    if is_truthy url.hash
    then err invalid_redirect_uri
    else if is_truthy url.username || is_truthy url.password
    then err invalid_redirect_uri
    else if same url.protocol (codes "http:") && not (is_loopback_host url.hostname)
    then err invalid_redirect_uri
    else if is_refused_scheme url.protocol
    then err invalid_redirect_uri
    else ok url.href

abbrev pub is_http_loopback : Url → Bool
is_http_loopback url = same url.protocol (codes "http:") && is_loopback_host url.hostname

-- The two agree in host, path and query, where the registered one is http on a loopback host; port,
-- credentials and fragment are not compared.
abbrev pub same_loopback : Url → Option Url → Bool
same_loopback req none = false
same_loopback req (some reg) =
    is_http_loopback reg
    && same reg.hostname req.hostname
    && same reg.pathname req.pathname
    && same reg.search req.search

-- `parse_url` is `new URL`, which throws where it is `none`.
module _ (parse_url : Text → Option Url) where
  unfoldable pub validate_redirect_uri : Option Json → Result ProtocolError Text
  unfolding check_redirect
  validate_redirect_uri (some (string value)) =
      if ltb 2048 (length value) then err invalid_redirect_uri else check_redirect (parse_url value)
  validate_redirect_uri _ = err invalid_redirect_uri

  abbrev pub loopback_matches : Option Url → (registered : List Text) → Bool
  loopback_matches none registered = false
  loopback_matches (some req) registered =
      is_http_loopback req && exists (λ uri. same_loopback req (parse_url uri)) registered

  unfoldable pub redirect_uri_matches : (requested : Text) (registered : List Text) → Bool
  unfolding is_loopback_host
  redirect_uri_matches requested registered =
      contains requested registered || loopback_matches (parse_url requested) registered
