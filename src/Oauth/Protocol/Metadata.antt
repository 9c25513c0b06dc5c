-- ===== src/Oauth/Protocol/Metadata.antt =====
-- `parseClientRegistration` with `readString` and `readHttpUrl`.
use kody_celld.Prelude.{
  ℕ, Bool, true, false, not, ◌&&◌, Option, none, some, List, [], ◌∷◌, Text, codes, same, ltb,
  length, take, if◌then◌else◌,
}
use kody_celld.Table.{exists}
use kody_celld.Act.{Result, ok, err}
use kody_celld.Results.{◌>>=◌}
use kody_celld.Json.{Json, JsonEntries, no_items, item, null, string, array, object, items, field}
use kody_celld.Oauth.Defs.{
  AuthMethod, no_secret, client_secret_post, client_secret_basic, GrantType, authorization_code,
  refresh_token, Registration,
}
use kody_celld.Oauth.Protocol.Redirects.{
  ProtocolError, invalid_client_metadata, invalid_redirect_uri, not_a_url, Url,
  validate_redirect_uri,
}

-- `value === undefined || value === null` gives null, a string its first `max` code units.
abbrev pub read_string : Option Json → (max : ℕ) → Result ProtocolError (Option Text)
read_string none max = ok none
read_string (some null) max = ok none
read_string (some (string t)) max = ok (some (take max t))
read_string _ max = err invalid_client_metadata

abbrev pub http_url : Option Url → Result ProtocolError (Option Text)
http_url none = err invalid_client_metadata
http_url (some url) =
    if not (same url.protocol (codes "https:")) && not (same url.protocol (codes "http:"))
    then err invalid_client_metadata
    else ok (some url.href)

abbrev pub url_of_text : (Text → Option Url) → Option Text → Result ProtocolError (Option Text)
url_of_text parse_url none = ok none
url_of_text parse_url (some []) = ok none
url_of_text parse_url (some (c ∷ cs)) = http_url (parse_url (c ∷ cs))

abbrev pub read_http_url : (Text → Option Url) → Option Json → Result ProtocolError (Option Text)
read_http_url parse_url value = read_string value 512 >>= url_of_text parse_url

abbrev pub items_or : Option Json → List Json → List Json
items_or (some (array vs)) default = items vs
items_or _ default = default

-- `meta.redirect_uris`, an array with an item and at most sixteen.
abbrev pub redirect_items : Option Json → Result ProtocolError (List Json)
redirect_items (some (array no_items)) = err invalid_redirect_uri
redirect_items (some (array (item v vs))) =
    if ltb 16 (length (items (item v vs))) then err invalid_redirect_uri else ok (items (item v vs))
redirect_items _ = err invalid_redirect_uri

abbrev pub method_of_text : Text → Result ProtocolError AuthMethod
method_of_text t =
    if same t (codes "none")
    then ok no_secret
    else if same t (codes "client_secret_post")
    then ok client_secret_post
    else if same t (codes "client_secret_basic")
    then ok client_secret_basic
    else err invalid_client_metadata

abbrev pub read_method : Option Json → Result ProtocolError AuthMethod
read_method none = ok no_secret
read_method (some null) = ok no_secret
read_method (some (string t)) = method_of_text t
read_method _ = err invalid_client_metadata

abbrev pub grant_of : Json → Result ProtocolError GrantType
grant_of (string t) =
    if same t (codes "authorization_code")
    then ok authorization_code
    else if same t (codes "refresh_token")
    then ok refresh_token
    else err invalid_client_metadata
grant_of _ = err invalid_client_metadata

unfoldable pub read_grants : List Json → Result ProtocolError (List GrantType)
read_grants [] = ok []
read_grants (v ∷ vs) = do grant ← grant_of v; grants ← read_grants vs; ok (grant ∷ grants)

abbrev pub is_code_grant : GrantType → Bool
is_code_grant authorization_code = true
is_code_grant refresh_token = false

abbrev pub require_code_grant : List GrantType → Result ProtocolError (List GrantType)
require_code_grant grants =
    if exists is_code_grant grants then ok grants else err invalid_client_metadata

abbrev pub is_code : Json → Bool
is_code (string t) = same t (codes "code")
is_code _ = false

abbrev pub check_response_types : List Json → Result ProtocolError (Unit {0})
check_response_types types =
    if exists (λ v. not (is_code v)) types then err invalid_client_metadata else ok tt

abbrev pub trimmed : (Text → Text) → Option Text → Text
trimmed trim none = []
trimmed trim (some name) = trim name

abbrev pub or_text : Text → Text → Text
or_text [] rest = rest
or_text (c ∷ cs) rest = c ∷ cs

-- `clientName || new URL(redirectUris[0]!).hostname || 'MCP client'`
abbrev pub host_or_default : Option Url → Result ProtocolError Text
host_or_default none = err not_a_url
host_or_default (some url) = ok (or_text url.hostname (codes "MCP client"))

abbrev pub first_host : (Text → Option Url) → List Text → Result ProtocolError Text
first_host parse_url [] = err not_a_url
first_host parse_url (uri ∷ uris) = host_or_default (parse_url uri)

abbrev pub name_or_host : (Text → Option Url) → Text → List Text → Result ProtocolError Text
name_or_host parse_url [] uris = first_host parse_url uris
name_or_host parse_url (c ∷ cs) uris = ok (c ∷ cs)

module _ (trim : Text → Text) (parse_url : Text → Option Url) where
  unfoldable pub validate_each : List Json → Result ProtocolError (List Text)
  unfolding validate_redirect_uri
  validate_each [] = ok []
  validate_each (v ∷ vs) = do
    uri ← validate_redirect_uri parse_url (some v)
    uris ← validate_each vs
    ok (uri ∷ uris)

  unfoldable pub registration_of : JsonEntries → Result ProtocolError Registration
  unfolding validate_each read_grants field items
  registration_of meta = do
    entries ← redirect_items (field (codes "redirect_uris") meta)
    redirect_uris ← validate_each entries
    method ← read_method (field (codes "token_endpoint_auth_method") meta)
    all_grants ← read_grants (
        items_or (field (codes "grant_types") meta)
          (string (codes "authorization_code") ∷ string (codes "refresh_token") ∷ []))
    grants ← require_code_grant all_grants
    checked ←
        check_response_types
          (items_or (field (codes "response_types") meta) (string (codes "code") ∷ []))
    raw_name ← read_string (field (codes "client_name") meta) 120
    client_name ← name_or_host parse_url (trimmed trim raw_name) redirect_uris
    client_uri ← read_http_url parse_url (field (codes "client_uri") meta)
    logo_uri ← read_http_url parse_url (field (codes "logo_uri") meta)
    software_id ← read_string (field (codes "software_id") meta) 120
    software_version ← read_string (field (codes "software_version") meta) 60
    ok (record {
      client_name = client_name;
      redirect_uris = redirect_uris;
      token_endpoint_auth_method = method;
      grant_types = grants;
      client_uri = client_uri;
      logo_uri = logo_uri;
      software_id = software_id;
      software_version = software_version;
    })

  unfoldable pub parse_client_registration : Json → Result ProtocolError Registration
  unfolding registration_of
  parse_client_registration (object meta) = registration_of meta
  parse_client_registration _ = err invalid_client_metadata
