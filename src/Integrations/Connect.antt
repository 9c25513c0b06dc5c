-- ===== src/Integrations/Connect.antt =====
-- `IntegrationStore` (src/integrations/store.ts): the connect flow.
use kody_celld.Prelude.{
  ℕ, Bool, false, not, ◌&&◌, ◌+◌, Option, none, some, List, [], ◌∷◌, ◌++◌, Text, codes, same, leb,
  take, if◌then◌else◌,
}
use kody_celld.Table.{find, delete, update}
use kody_celld.Act.{Result, ok, err, ◌>>=◌, ◌>>◌, pure, throw, gets, modify, require}
use kody_celld.Crypto.Keyring.{EncryptedValue}
use kody_celld.Crypto.Equal.{constant_time_equal}
use kody_celld.Integrations.Defs.{
  IntegrationConfig, IntegrationStatus, pending, connected, auth_failed, IntegrationError,
  integration_flow_mismatch, connect_link_invalid, connect_state_invalid, oauth_denied,
  invalid_args, not_a_url, Failure, expired, denied, failed, IntegrationRow, ConnectRow,
  IntegrationStore, StoreHost, by_code, TokenResponse, has_connect_id,
}
use kody_celld.Integrations.Requests.{connect_ticket_ttl_ms, encode_state, join_with}
use kody_celld.Integrations.Store.{Store, seal, unseal, require_row, clear_tokens, is_code_flow}
use kody_celld.Integrations.Tokens.{Drawn, lift, request_tokens, store_tokens}
use kody_celld.Integrations.Exchange.{is_none}

-- `constantTimeEqual` of the file, over the code units of two texts.
unfoldable pub equal_text : Text → Text → Bool
unfolding constant_time_equal
equal_text a b = constant_time_equal a b

unfoldable pub connect_row : (id : Text) → IntegrationStore → Option ConnectRow
connect_row id s = find (has_connect_id id) s.connects

abbrev pub is_replaced : (name id : Text) → ConnectRow → Bool
is_replaced name id row = same row.name name && (not (same row.id id) && is_none row.completed_at)

pub record ConnectTicket : Type 0 where
  pub connect_id : Text
  pub ticket : Text
  pub expires_at : ℕ

pub record BeginDrawn : Type 0 where
  pub verifier : Text
  pub nonce : Text
  pub iv : List ℕ

abbrev pub found_connect : Option ConnectRow → IntegrationError → Store ConnectRow
found_connect none e = throw e
found_connect (some row) e = pure row

abbrev pub scope_param : IntegrationConfig → List Text → List (Text × Text)
scope_param config [] = []
scope_param config (s ∷ ss) = (codes "scope", join_with config.scope_separator (s ∷ ss)) ∷ []

abbrev pub authorize_params :
    IntegrationConfig → (redirect_uri state code_challenge : Text) → List (Text × Text)
authorize_params config redirect_uri state code_challenge =
    config.authorize_params
    ++ ((codes "response_type", codes "code")
        ∷ (codes "client_id", config.client_id)
        ∷ (codes "redirect_uri", redirect_uri)
        ∷ (codes "state", state)
        ∷ (codes "code_challenge", code_challenge)
        ∷ (codes "code_challenge_method", codes "S256")
        ∷ scope_param config config.scopes)

abbrev pub is_open : ConnectRow → Bool
is_open row = is_none row.started_at && is_none row.completed_at

abbrev pub completed : Option Failure → (now : ℕ) → ConnectRow → ConnectRow
completed reason now row = record row { completed_at = some now; error = reason }

unfoldable pub finish_connect :
    (id : Text) → Option Failure → (now : ℕ) → IntegrationStore → IntegrationStore
finish_connect id reason now s = record s {
  connects = update (has_connect_id id) (completed reason now) s.connects;
}

-- A live token is kept.
abbrev pub fail_auth :
    IntegrationStatus → (name : Text) → Failure → (now : ℕ) → IntegrationStore → IntegrationStore
fail_auth connected name reason now s = s
fail_auth pending name reason now s = clear_tokens name auth_failed (some reason) now s
fail_auth auth_failed name reason now s = clear_tokens name auth_failed (some reason) now s

abbrev pub fail_connect :
    IntegrationRow → ConnectRow → Failure → (now : ℕ) → IntegrationStore → IntegrationStore
fail_connect integration row reason now s =
    fail_auth integration.status integration.name reason now
      (finish_connect row.id (some reason) now s)

abbrev pub is_started : ConnectRow → Bool
is_started row = not (is_none row.started_at) && is_none row.completed_at

abbrev pub denial : Option Text → Failure
denial none = denied (codes "missing_code")
denial (some reason) = denied (take 120 reason)

module _ (host : StoreHost) where
  abbrev pub new_connect : (name id ticket redirect_uri : Text) (now : ℕ) → ConnectRow
  new_connect name id ticket redirect_uri now = record {
    id = id;
    name = name;
    ticket_hash = host.platform.crypto.sha256_hex ticket;
    nonce_hash = none;
    verifier = none;
    redirect_uri = redirect_uri;
    created_at = now;
    expires_at = now + connect_ticket_ttl_ms;
    started_at = none;
    completed_at = none;
    error = none;
  }

  -- A new link takes the place of the ones that are not completed. `id` and `ticket` are drawn.
  unfoldable pub connect_start :
      (name redirect_uri id ticket : Text) (now : ℕ) → Store ConnectTicket
  unfolding require_row
  connect_start name redirect_uri id ticket now = do
    row ← require_row name
    require (is_code_flow row.config.flow) integration_flow_mismatch
    modify (λ s. record s {
      connects =
          delete (is_replaced name id) (new_connect name id ticket redirect_uri now ∷ s.connects);
    })
    pure (record { connect_id = id; ticket = ticket; expires_at = now + connect_ticket_ttl_ms })

  abbrev pub begun : BeginDrawn → (now : ℕ) → ConnectRow → ConnectRow
  begun drawn now row = record row {
    started_at = some now;
    nonce_hash = some (host.platform.crypto.sha256_hex drawn.nonce);
    verifier = some (seal host drawn.iv drawn.verifier);
  }

  abbrev pub authorize_url_of :
      IntegrationConfig → Option Text → (params : List (Text × Text)) → Result IntegrationError Text
  authorize_url_of config none params = err invalid_args
  authorize_url_of config (some text) params = elim (host.platform.parse_url text) [
    | none ↦ err not_a_url
    | some url ↦ ok (host.platform.set_params url params)
  ]

  unfoldable pub build_authorize_url :
      IntegrationConfig → (redirect_uri state code_challenge : Text) → Result IntegrationError Text
  unfolding join_with
  build_authorize_url config redirect_uri state code_challenge =
      authorize_url_of config config.authorize_url
        (authorize_params config redirect_uri state code_challenge)

  -- The user opens the link: the ticket is burnt.
  unfoldable pub connect_begin : (connect_id ticket : Text) → BeginDrawn → (now : ℕ) → Store Text
  unfolding connect_row equal_text seal require_row build_authorize_url encode_state
  connect_begin connect_id ticket drawn now = do
    found ← gets (connect_row connect_id)
    row ← found_connect found connect_link_invalid
    require (is_open row) connect_link_invalid
    require (not (leb row.expires_at now)) connect_link_invalid
    require (equal_text (host.platform.crypto.sha256_hex ticket) row.ticket_hash)
        connect_link_invalid
    integration ← require_row row.name
    modify
        (λ s. record s { connects = update (has_connect_id row.id) (begun drawn now) s.connects })
    lift (
        build_authorize_url integration.config row.redirect_uri
          (encode_state host.user_id row.id drawn.nonce)
          (host.platform.pkce_challenge drawn.verifier))

  -- `try { … } catch` around the exchange of the code
  abbrev pub exchanged :
      IntegrationRow
      → ConnectRow
      → Drawn
      → (now : ℕ) → Result IntegrationError TokenResponse × IntegrationStore
      → Result IntegrationError (Unit {0}) × IntegrationStore
  exchanged integration row drawn now (err e, s) =
      (err e, fail_connect integration row (failed e) now s)
  exchanged integration row drawn now (ok tokens, s) = (
    ok tt,
    finish_connect row.id none now (store_tokens host integration.name drawn tokens false now s),
  )

  abbrev pub verifier_of : Option EncryptedValue → Result IntegrationError Text
  verifier_of none = err connect_state_invalid
  verifier_of (some value) = unseal host value

  abbrev pub exchange_code :
      IntegrationRow → ConnectRow → (code : Text) → Drawn → (now : ℕ) → Store (Unit {0})
  exchange_code integration row code drawn now = do
    code_verifier ← lift (verifier_of row.verifier)
    λ s.
        exchanged integration row drawn now
          (request_tokens host integration (by_code code row.redirect_uri code_verifier) now s)

  -- The provider's answer: `code` counts only where it reports no error.
  abbrev pub answered_with :
      IntegrationRow
      → ConnectRow
      → (code provider_error : Option Text) → Drawn
      → (now : ℕ) → Store (Unit {0})
  answered_with integration row (some code) none drawn now =
      exchange_code integration row code drawn now
  answered_with integration row none none drawn now = do
    modify (fail_connect integration row (denial none) now)
    throw oauth_denied
  answered_with integration row code (some provider_error) drawn now = do
    modify (fail_connect integration row (denial (some provider_error)) now)
    throw oauth_denied

  abbrev pub is_nonce : (nonce : Text) → Option Text → Bool
  is_nonce nonce none = false
  is_nonce nonce (some nonce_hash) = equal_text (host.platform.crypto.sha256_hex nonce) nonce_hash

  -- The attempt expires a second time to live after the link.
  abbrev pub complete_row :
      IntegrationRow
      → ConnectRow
      → (code provider_error : Option Text) → Drawn
      → (now : ℕ) → Store (Unit {0})
  complete_row integration row code provider_error drawn now =
      if leb (row.expires_at + connect_ticket_ttl_ms) now
      then (do modify (finish_connect row.id (some expired) now); throw connect_link_invalid)
      else answered_with integration row code provider_error drawn now

  unfoldable pub connect_complete :
      (connect_id nonce : Text)
      → (code provider_error : Option Text) → Drawn
      → (now : ℕ) → Store (Unit {0})
  unfolding connect_row equal_text require_row finish_connect clear_tokens unseal request_tokens
      store_tokens
  connect_complete connect_id nonce code provider_error drawn now = do
    found ← gets (connect_row connect_id)
    row ← found_connect found connect_state_invalid
    require (is_started row) connect_state_invalid
    require (is_nonce nonce row.nonce_hash) connect_state_invalid
    integration ← require_row row.name
    complete_row integration row code provider_error drawn now
