-- ===== src/Integrations/Requests.antt =====
-- `usagePermits`, `buildTokenRequest`, `parseTokenResponse`, `isTokenExpired` and the connect states of
-- src/integrations/oauth.ts.
use kody_celld.Prelude.{
  ℕ, Bool, true, false, not, ◌&&◌, ◌||◌, ◌+◌, Option, none, some, List, [], ◌∷◌, ◌++◌, Text, codes,
  contains, split_from, starts_with, has_char, leb, between, ◌==◌, if◌then◌else◌,
}
use kody_celld.Act.{Result, ok, err}
use kody_celld.Json.{Json, string, object, JsonEntries, field}
use kody_celld.Integrations.Defs.{
  IntegrationUsage, any, packages, IntegrationConfig, TokenAuthStyle, body, basic, TokenGrant,
  by_code, by_refresh_token, by_client, TokenRequest, TokenReply, TokenResponse, OauthPlatform,
  IntegrationError, oauth_token_error,
}

unfoldable pub usage_permits : IntegrationUsage → (package_name : Option Text) → Bool
usage_permits any package_name = true
usage_permits (packages names) none = false
usage_permits (packages names) (some package_name) = contains package_name names

abbrev pub token_expiry_skew_ms : ℕ
token_expiry_skew_ms = 60000

abbrev pub connect_ticket_ttl_ms : ℕ
connect_ticket_ttl_ms = 900000

unfoldable pub is_token_expired : (expires_at : Option ℕ) → (now : ℕ) → Bool
is_token_expired none now = false
is_token_expired (some expires_at) now = leb expires_at (now + token_expiry_skew_ms)

-- `words.join(separator)`
unfoldable pub join_with : (separator : Text) → List Text → Text
join_with separator [] = []
join_with separator (w ∷ []) = w
join_with separator (w ∷ v ∷ ws) = w ++ (separator ++ join_with separator (v ∷ ws))

abbrev pub scope_entries : (scopes : List Text) → (separator : Text) → List (Text × Text)
scope_entries [] separator = []
scope_entries (s ∷ ss) separator = (codes "scope", join_with separator (s ∷ ss)) ∷ []

abbrev pub grant_entries : IntegrationConfig → TokenGrant → List (Text × Text)
grant_entries config (by_code code redirect_uri code_verifier) =
    (codes "grant_type", codes "authorization_code")
    ∷ (codes "code", code)
    ∷ (codes "redirect_uri", redirect_uri)
    ∷ (codes "code_verifier", code_verifier)
    ∷ []
grant_entries config (by_refresh_token refresh_token) =
    (codes "grant_type", codes "refresh_token") ∷ (codes "refresh_token", refresh_token) ∷ []
grant_entries config by_client =
    (codes "grant_type", codes "client_credentials")
    ∷ scope_entries config.scopes config.scope_separator

abbrev pub secret_entries : Option Text → List (Text × Text)
secret_entries none = []
secret_entries (some secret) = (codes "client_secret", secret) ∷ []

-- `text.includes(part)`
unfoldable pub includes : (part text : Text) → Bool
includes part [] = starts_with part []
includes part (c ∷ cs) = starts_with part (c ∷ cs) || includes part cs

module _ (p : OauthPlatform) where
  abbrev pub basic_credentials : (client_id secret : Text) → Text
  basic_credentials client_id secret =
      codes "Basic "
      ++ p.btoa (p.encode_uri_component client_id ++ 58 ∷ p.encode_uri_component secret)

  abbrev pub client_entries :
      IntegrationConfig → Option Text → List (Text × Text) → Option Text × List (Text × Text)
  client_entries config secret entries =
      (none, entries ++ (codes "client_id", config.client_id) ∷ secret_entries secret)

  abbrev pub credentials_of :
      TokenAuthStyle
      → IntegrationConfig
      → (client_secret : Option Text) → List (Text × Text)
      → Option Text × List (Text × Text)
  credentials_of basic config (some secret) entries =
      (some (basic_credentials config.client_id secret), entries)
  credentials_of basic config none entries = client_entries config none entries
  credentials_of body config secret entries = client_entries config secret entries

  unfoldable pub build_token_request :
      IntegrationConfig → (client_secret : Option Text) → TokenGrant → TokenRequest
  unfolding join_with
  build_token_request config client_secret grant =
      let (authorization, entries) =
        credentials_of config.token_auth_style config client_secret (grant_entries config grant) in
      record { url = config.token_url; authorization = authorization; body = entries }

  abbrev pub object_of : Option Json → Option JsonEntries
  object_of (some (object entries)) = some entries
  object_of _ = none

  abbrev pub or_blank : Option Text → Text
  or_blank none = []
  or_blank (some text) = text

  abbrev pub is_some_text : Text → Bool
  is_some_text [] = false
  is_some_text (c ∷ cs) = true

  unfoldable pub payload_of : TokenReply → (trimmed : Text) → Option JsonEntries
  unfolding includes
  payload_of reply trimmed =
      if starts_with (codes "{") trimmed
      then object_of (p.parse_json trimmed)
      else if is_some_text trimmed
          && includes (codes "x-www-form-urlencoded") (or_blank reply.content_type)
      then some (p.form trimmed)
      else if is_some_text trimmed
          && (not (starts_with (codes "<") trimmed)
              && (has_char 61 trimmed && not (has_char 32 trimmed)))
      then some (p.form trimmed)
      else none

  abbrev pub text_of : Option Json → Option Text
  text_of (some (string text)) = some text
  text_of _ = none

  abbrev pub text_at : (key : Text) → Option JsonEntries → Option Text
  text_at key none = none
  text_at key (some entries) = text_of (field key entries)

  abbrev pub non_empty : Option Text → Option Text
  non_empty (some (c ∷ cs)) = some (c ∷ cs)
  non_empty _ = none

  abbrev pub bearer : Option Text → Text
  bearer none = codes "Bearer"
  bearer (some text) = text

  abbrev pub lifetime : Option Json → Option ℕ
  lifetime none = none
  lifetime (some v) = p.lifetime_ms v

  abbrev pub value_at : (key : Text) → Option JsonEntries → Option Json
  value_at key none = none
  value_at key (some entries) = field key entries

  abbrev pub from_now : (now : ℕ) → Option ℕ → Option ℕ
  from_now now none = none
  from_now now (some ms) = some (now + ms)

  abbrev pub token_response :
      Option JsonEntries → Option Text → (now : ℕ) → Result IntegrationError TokenResponse
  token_response payload none now = err (oauth_token_error none)
  token_response payload (some access_token) now = ok (record {
    access_token = access_token;
    refresh_token = non_empty (text_at (codes "refresh_token") payload);
    token_type = bearer (non_empty (text_at (codes "token_type") payload));
    expires_at = from_now now (lifetime (value_at (codes "expires_in") payload));
    scope = text_at (codes "scope") payload;
  })

  abbrev pub is_error_code : Option Text → Bool
  is_error_code none = false
  is_error_code (some code) = is_some_text code

  abbrev pub read_payload :
      (status : ℕ) → Option JsonEntries → (now : ℕ) → Result IntegrationError TokenResponse
  read_payload status payload now =
      if leb 400 status || is_error_code (text_at (codes "error") payload)
      then err (oauth_token_error (text_at (codes "error") payload))
      else token_response payload (non_empty (text_at (codes "access_token") payload)) now

  unfoldable pub parse_token_response :
      TokenReply → (now : ℕ) → Result IntegrationError TokenResponse
  unfolding payload_of
  parse_token_response reply now =
      read_payload reply.status (payload_of reply (p.trim reply.body)) now

unfoldable pub encode_state : (user_id connect_id nonce : Text) → Text
encode_state user_id connect_id nonce = user_id ++ 46 ∷ (connect_id ++ 46 ∷ nonce)

-- `[a-zA-Z0-9_-]`
abbrev pub is_state_char : ℕ → Bool
is_state_char c = between 97 122 c || between 65 90 c || between 48 57 c || (c == 95) || (c == 45)

unfoldable pub all_state_chars : Text → Bool
all_state_chars [] = true
all_state_chars (c ∷ cs) = is_state_char c && all_state_chars cs

unfoldable pub is_state_part : Text → Bool
unfolding all_state_chars
is_state_part [] = false
is_state_part (c ∷ cs) = all_state_chars (c ∷ cs)

pub record ConnectState : Type 0 where
  pub user_id : Text
  pub connect_id : Text
  pub nonce : Text

abbrev pub state_of_parts : List Text → Option ConnectState
state_of_parts (u ∷ c ∷ n ∷ []) =
    if is_state_part u && (is_state_part c && is_state_part n)
    then some (record { user_id = u; connect_id = c; nonce = n })
    else none
state_of_parts _ = none

unfoldable pub decode_state : Text → Option ConnectState
unfolding is_state_part
decode_state state = state_of_parts (split_from 46 [] state)
