-- ===== src/Tests/GatewayTable.antt =====
-- The gateway, the providers and the integrations on concrete inputs.
use kody_celld.Prelude.{
  false, ◌≡◌, refl, arith, none, some, List, [], ◌∷◌, ◌++◌, Text, codes, same, starts_with,
  ends_with, has_char, contains, ne_of_same,
}
use kody_celld.Table.{find, select, update, exists}
use kody_celld.Act.{err}
use kody_celld.Json.{no_entries}
use kody_celld.Crypto.Hex.{hex_to_bytes}
use kody_celld.Crypto.Keyring.{
  WebCrypto, EncryptedValue, MasterKeyring, decrypt_with_keyring, candidates, try_keys,
  decrypt_secret_value,
}
use kody_celld.Crypto.Equal.{constant_time_equal, difference}
use kody_celld.Integrations.Defs.{
  authorization_code, body, packages, IntegrationConfig, connected, IntegrationRow, ConnectRow,
  IntegrationStore, OauthPlatform, StoreHost, connect_link_invalid, oauth_denied,
}
use kody_celld.Integrations.Requests.{usage_permits, is_token_expired, join_with}
use kody_celld.Integrations.Store.{unseal}
use kody_celld.Integrations.Tokens.{Drawn, token_resolve}
use kody_celld.Integrations.Guarded.{IsGuarded, token-IsGuarded}
use kody_celld.Integrations.Connect.{BeginDrawn, begun, connect_begin, connect_complete}
use kody_celld.Integrations.Connected.{link_opens_once, failed_reconnect_keeps}
use kody_celld.Secrets.Resolve.{secret_resolve_values}
use kody_celld.Gateway.Policy.{
  is_host_approved, host_matches_approval, request_host, is_credential_transport_allowed,
}
use kody_celld.Gateway.State.{OutgoingRequest, no_body, GatewayState, GatewayHost}
use kody_celld.Gateway.Fetch.{
  is_own_admin_surface, has_placeholders, inspect, collected, send_injected,
}
use kody_celld.Gateway.Pipeline.{replacements_for, fetch}
use kody_celld.Secrets.Defs.{SecretRow, user_scope}
use kody_celld.Oauth.Protocol.Redirects.{Url}
use kody_celld.Gateway.Placeholders.{build_secret_placeholder, parse_secret_placeholders}
use kody_celld.Gateway.Replace.{replace_secret_placeholders}
use kody_celld.Gateway.Injected.{reference, secret_injected}

-- The only dollars of the second value are the two in a row.
secret_injected_example :
    (parse_secret_placeholders
        (codes "Bearer " ++ (build_secret_placeholder (codes "api-key") none ++ codes "!"))
      ≡ reference (codes "api-key") none ∷ [])
    × (replace_secret_placeholders
          (codes "Bearer " ++ (build_secret_placeholder (codes "api-key") none ++ codes "!"))
          ((build_secret_placeholder (codes "api-key") none, codes "ab") ∷ [])
        ≡ codes "Bearer " ++ (codes "ab" ++ codes "!"))
    × (replace_secret_placeholders
          (codes "Bearer " ++ (build_secret_placeholder (codes "api-key") none ++ codes "!"))
          ((build_secret_placeholder (codes "api-key") none, codes "ab" ++ 36 ∷ 36 ∷ codes "c")
            ∷ [])
        ≡ codes "Bearer " ++ ((codes "ab" ++ 36 ∷ codes "c") ++ codes "!"))
unfolding same
secret_injected_example =
    secret_injected (codes "api-key") none (codes "Bearer ") (codes "!") (codes "ab") (codes "c")
      (
        (refl, (refl, (refl, (refl, (refl, (refl, (refl, tt))))))),
        ne_of_same (codes "api-key") [] refl,
      )
      (omega arith) (omega arith) (omega arith) (omega arith)

abbrev crypto : WebCrypto
crypto = record {
  sha256_hex = λ t. t;
  derive_key = λ k u. [];
  aes_encrypt = λ key iv bytes. bytes;
  aes_decrypt = λ key iv bytes. some bytes;
  encode = λ t. t;
  decode = λ t. t;
  trim = λ t. t;
}

abbrev keys : MasterKeyring
keys = record {
  current = record { id = codes "k"; key = codes "new" };
  all = record { id = codes "k"; key = codes "new" } ∷ [];
}

-- Every URL is one of https on a single host, with its text as path.
abbrev secure : Text → Url
secure path = record {
  protocol = codes "https:";
  username = [];
  password = [];
  hostname = codes "api.dev";
  pathname = path;
  search = [];
  hash = [];
  href = path;
}

abbrev oauth : OauthPlatform
oauth = record {
  crypto = crypto;
  parse_url = λ t. some (secure t);
  parse_json = λ t. none;
  form = λ t. no_entries;
  lifetime_ms = λ v. none;
  encode_uri_component = λ t. t;
  btoa = λ t. t;
  trim = λ t. t;
  to_lower = λ t. t;
  set_params = λ url params. url.href;
  pkce_challenge = λ t. t;
  fetch = λ r. none;
}

abbrev store_host : StoreHost
store_host = record {
  platform = oauth;
  user_id = codes "u";
  keyring = keys;
  insecure_allowance = [];
}

abbrev config : IntegrationConfig
config = record {
  name = codes "hub";
  provider = codes "hub";
  description = none;
  flow = authorization_code;
  authorize_url = some (codes "/authorize");
  token_url = codes "/token";
  client_id = codes "c";
  token_auth_style = body;
  scopes = [];
  scope_separator = codes " ";
  authorize_params = [];
  allowed_hosts = codes "api.dev" ∷ [];
  usage = packages (codes "p" ∷ []);
}

-- The bytes of `a` in hex.
abbrev sealed_a : EncryptedValue
sealed_a = record { iv = []; ciphertext = codes "61"; key_id = none }

abbrev hub : IntegrationRow
hub = record {
  name = codes "hub";
  config = config;
  client_secret = none;
  access = some sealed_a;
  refresh = none;
  token_type = none;
  expires_at = none;
  granted_scope = none;
  status = connected;
  connected_at = some 1;
  refreshed_at = none;
  last_used_at = none;
  auth_failed_at = none;
  auth_failed_reason = none;
  created_at = 1;
  updated_at = 1;
}

abbrev attempt : ConnectRow
attempt = record {
  id = codes "cn";
  name = codes "hub";
  ticket_hash = codes "t";
  nonce_hash = none;
  verifier = none;
  redirect_uri = codes "/back";
  created_at = 1;
  expires_at = 900001;
  started_at = none;
  completed_at = none;
  error = none;
}

abbrev store : IntegrationStore
store = record { integrations = hub ∷ []; connects = attempt ∷ [] }

abbrev ivs : Drawn
ivs = record { access_iv = []; refresh_iv = [] }

token-IsGuarded_example :
    IsGuarded store_host
      (codes "hub")
      (some (codes "p"))
      (codes "api.dev")
      false
      5
      store
      (codes "a")
      false
unfolding token_resolve find update same contains starts_with ends_with unseal decrypt_with_keyring
    candidates try_keys decrypt_secret_value hex_to_bytes is_host_approved host_matches_approval
    usage_permits is_token_expired
token-IsGuarded_example =
    token-IsGuarded store_host (codes "hub") (some (codes "p")) (codes "api.dev") false ivs 5 store
      (record store { integrations = record hub { last_used_at = some 5 } ∷ [] }) (codes "a") hub
      false refl

abbrev drawn_once : BeginDrawn
drawn_once = record { verifier = codes "v"; nonce = codes "n"; iv = [] }

abbrev drawn_twice : BeginDrawn
drawn_twice = record { verifier = codes "w"; nonce = codes "m"; iv = [] }

-- The store after the link was opened.
abbrev opened : IntegrationStore
opened = (connect_begin store_host (codes "cn") (codes "t") drawn_once 5 store).1

link_opens_once_example :
    connect_begin store_host (codes "cn") (codes "t") drawn_twice 6 opened
    ≡ (err connect_link_invalid, opened)
unfolding connect_begin find update same constant_time_equal difference join_with
link_opens_once_example =
    link_opens_once store_host (codes "cn") (codes "t") (codes "t") drawn_once drawn_twice 5 6 store
      opened (codes "/authorize") refl

-- The provider answers with an error.
failed_reconnect_keeps_example :
    (connect_complete store_host
      (codes "cn")
      (codes "n")
      none
      (some (codes "no"))
      ivs
      7
      opened).1.integrations
    ≡ opened.integrations
unfolding connect_complete connect_begin find update same constant_time_equal difference join_with
failed_reconnect_keeps_example =
    failed_reconnect_keeps store_host (codes "cn") (codes "n") none (some (codes "no")) ivs 7 opened
      (connect_complete store_host (codes "cn") (codes "n") none (some (codes "no")) ivs 7 opened).1
      (begun store_host drawn_once 5 attempt) hub oauth_denied refl refl refl refl

abbrev api_secret : SecretRow
api_secret = record {
  name = codes "api";
  scope = user_scope;
  package_name = [];
  description = none;
  iv = [];
  ciphertext = codes "6162";
  key_id = codes "k";
  created_at = 1;
  updated_at = 1;
}

abbrev gateway : GatewayHost
gateway = record {
  store = store_host;
  public_url = codes "/";
  private_hosts = [];
  package_name = some (codes "p");
  cache_ttl_ms = 0;
  decode_text = λ bs. bs;
  send = λ earlier r. some (record { status = 200; body = [] });
  run_provider = λ b entry ref. none;
}

-- A header names a secret, and a token of an integration.
abbrev request : OutgoingRequest
request = record {
  method = codes "GET";
  url = secure (codes "/x");
  headers =
      (codes "a", codes "{{secret:api}}") ∷ (codes "b", codes "{{integration-token:hub}}") ∷ [];
  body = none;
  run_id = some (codes "r");
}

abbrev gate_state : (secret_hosts : List Text) → GatewayState
gate_state secret_hosts = record {
  cell = record {
    packages = [];
    secrets = api_secret ∷ [];
    bindings = [];
    grants = [];
    cache = [];
  };
  integrations = store;
  secret_hosts = secret_hosts;
  events = [];
  sent = [];
}

-- Both values are put in where the host is approved.
sends_values :
    (fetch gateway request (λ n. ivs) (λ n. ivs) 5 (gate_state (codes "api.dev" ∷ []))).1.sent
    ≡ record {
      method = codes "GET";
      url = secure (codes "/x");
      headers = (codes "a", codes "ab") ∷ (codes "b", codes "a") ∷ [];
      body = no_body;
    }
      ∷ []
unfolding fetch is_own_admin_surface has_placeholders inspect collected replacements_for
    send_injected request_host is_credential_transport_allowed is_host_approved same starts_with
    ends_with has_char find select exists update contains decrypt_with_keyring secret_resolve_values
    hex_to_bytes
sends_values = refl

-- Nothing leaves where it is not.
sends_nothing : (fetch gateway request (λ n. ivs) (λ n. ivs) 5 (gate_state [])).1.sent ≡ []
unfolding fetch is_own_admin_surface has_placeholders inspect collected replacements_for
    send_injected request_host is_credential_transport_allowed is_host_approved same starts_with
    ends_with has_char find select exists update contains decrypt_with_keyring secret_resolve_values
    hex_to_bytes
sends_nothing = refl
