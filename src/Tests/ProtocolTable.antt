-- ===== src/Tests/ProtocolTable.antt =====
-- The protocol rules on concrete inputs.
use kody_celld.Prelude.{
  refl, Option, none, some, [], ◌∷◌, Text, codes, same, contains, if◌then◌else◌,
}
use kody_celld.Table.{exists}
use kody_celld.Json.{Json, object, array, string, item, no_items, entry, no_entries}
use kody_celld.Oauth.Defs.{Registration, no_secret, authorization_code, refresh_token}
use kody_celld.Oauth.Protocol.Redirects.{Url}
use kody_celld.Oauth.Protocol.Metadata.{parse_client_registration}
use kody_celld.Oauth.Protocol.Authorize.{
  Params, AuthorizeClient, AuthorizeRequest, parse_authorize_request, words_from,
}
use kody_celld.Oauth.Protocol.Trusted.{Accepts, authorize_request_trusted}
use kody_celld.Oauth.Protocol.Registered.{IsRegistrable, client_registration_safe}

abbrev callback : Text
callback = codes "http://localhost:7/cb"

-- Every text is the URL of one loopback host.
abbrev parse_url : Text → Option Url
parse_url t = some (record {
  protocol = codes "http:";
  username = [];
  password = [];
  hostname = codes "localhost";
  pathname = codes "/cb";
  search = [];
  hash = [];
  href = t;
})

abbrev challenge : Text
challenge = codes "0123456789012345678901234567890123456789abc"

abbrev params : Params
params name =
    if same name (codes "client_id")
    then some (codes "c1")
    else if same name (codes "redirect_uri")
    then some callback
    else if same name (codes "response_type")
    then some (codes "code")
    else if same name (codes "code_challenge")
    then some challenge
    else if same name (codes "scope")
    then some (codes "email other openid")
    else none

abbrev client : AuthorizeClient
client = record { client_id = codes "c1"; redirect_uris = codes "http://localhost/cb" ∷ [] }

abbrev request : AuthorizeRequest
request = record {
  client_id = codes "c1";
  redirect_uri = callback;
  code_challenge = challenge;
  state = none;
  scope = codes "openid email";
  resource = codes "https://k/mcp";
}

authorize_request_trusted_example :
    Accepts parse_url params (some client) (codes "https://k") request
unfolding parse_authorize_request contains same exists words_from
authorize_request_trusted_example =
    authorize_request_trusted parse_url params (some client) (codes "https://k") request refl

abbrev metadata : Json
metadata = object (
    entry (codes "redirect_uris") (array (item (string callback) no_items))
      (entry (codes "client_name") (string (codes "n")) no_entries))

abbrev registration : Registration
registration = record {
  client_name = codes "n";
  redirect_uris = callback ∷ [];
  token_endpoint_auth_method = no_secret;
  grant_types = authorization_code ∷ refresh_token ∷ [];
  client_uri = none;
  logo_uri = none;
  software_id = none;
  software_version = none;
}

client_registration_safe_example : IsRegistrable parse_url (λ t. t) registration
unfolding parse_client_registration same exists
client_registration_safe_example =
    client_registration_safe parse_url (λ t. t) metadata registration refl
