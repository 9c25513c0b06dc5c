-- ===== src/Oauth/Defs.antt =====
-- The tables of `oauthServerSchema`, the values that the methods return, and `purge`.
-- An instant is its milliseconds: ISO texts of one width compare as their instants do, so
-- `expires_at <= ?` is `≤`. A JSON column holds the list that was stringified into it.
use kody_celld.Prelude.{
  ℕ, ◌+◌, ◌*◌, Bool, true, false, not, ◌&&◌, Option, none, some, List, Text, same, leb,
}
use kody_celld.Table.{delete, update, exists}

-- `TokenEndpointAuthMethod`; the source's "none" is `no_secret`.
pub data AuthMethod : Type 0 where
  no_secret client_secret_post client_secret_basic : AuthMethod

abbrev pub same_method : AuthMethod → AuthMethod → Bool
same_method no_secret no_secret = true
same_method client_secret_post client_secret_post = true
same_method client_secret_basic client_secret_basic = true
same_method _ _ = false

pub data GrantType : Type 0 where
  authorization_code refresh_token : GrantType

pub record Registration : Type 0 where
  pub client_name : Text
  pub redirect_uris : List Text
  pub token_endpoint_auth_method : AuthMethod
  pub grant_types : List GrantType
  pub client_uri : Option Text
  pub logo_uri : Option Text
  pub software_id : Option Text
  pub software_version : Option Text

-- The columns of the registration are one field.
pub record ClientRow : Type 0 where
  pub client_id : Text
  pub client_secret_hash : Option Text
  pub registration : Registration
  pub created_at : ℕ
  pub last_used_at : Option ℕ

pub record CodeRow : Type 0 where
  pub code_hash : Text
  pub client_id : Text
  pub user_id : Text
  pub redirect_uri : Text
  pub code_challenge : Text
  pub scope : Text
  pub resource : Text
  pub created_at : ℕ
  pub expires_at : ℕ

pub record GrantRow : Type 0 where
  pub id : Text
  pub user_id : Text
  pub client_id : Text
  pub scope : Text
  pub created_at : ℕ
  pub last_used_at : Option ℕ

pub data TokenKind : Type 0 where
  access refresh : TokenKind

abbrev pub is_access : TokenKind → Bool
is_access access = true
is_access refresh = false

abbrev pub is_refresh : TokenKind → Bool
is_refresh access = false
is_refresh refresh = true

pub record TokenRow : Type 0 where
  pub token_hash : Text
  pub kind : TokenKind
  pub grant_id : Text
  pub family_id : Text
  pub created_at : ℕ
  pub expires_at : ℕ
  pub replaced_at : Option ℕ
  pub replay_json : Option Text

pub record Store : Type 0 where
  pub clients : List ClientRow
  pub oauth_codes : List CodeRow
  pub grants : List GrantRow
  pub tokens : List TokenRow

-- `token_type` is always "Bearer".
pub record TokenResponse : Type 0 where
  pub access_token : Text
  pub expires_in : ℕ
  pub refresh_token : Text
  pub scope : Text

-- A constructor for each `throw` of the store; `constraint_failed` is what SQLite throws on a
-- second row with one key.
pub data Error : Type 0 where
  client_id_required unknown_client secret_required wrong_auth_method authentication_failed
        public_client_sent_secret unknown_refresh_token refresh_token_expired refresh_token_reused
        oauth_grant_not_found constraint_failed :
      Error

-- What the store takes from the platform: TextEncoder, SHA-256 as hex, and the sealing of a
-- replay snapshot (JSON, AES-GCM under the master keyring; the first argument is the random IV), which
-- is taken not to throw.
pub record Vault : Type 0 where
  pub encode : Text → List ℕ
  pub sha256_hex : Text → Text
  pub seal_replay : Text → TokenResponse → Text
  pub open_replay : Text → Option TokenResponse

abbrev pub code_ttl_ms : ℕ
code_ttl_ms = 10 * 60 * 1000

abbrev pub access_token_ttl_seconds : ℕ
access_token_ttl_seconds = 60 * 60

abbrev pub refresh_token_ttl_ms : ℕ
refresh_token_ttl_ms = 30 * 24 * 60 * 60 * 1000

abbrev pub refresh_replay_grace_ms : ℕ
refresh_replay_grace_ms = 60 * 1000

abbrev pub unused_client_ttl_ms : ℕ
unused_client_ttl_ms = 30 * 24 * 60 * 60 * 1000

-- `replay_json IS NOT NULL AND replaced_at <= now - refreshReplayGraceMs`; NULL is not `<=`.
abbrev pub is_stale_replay : ℕ → TokenRow → Bool
is_stale_replay now t = elim t.replay_json [
  | none ↦ false
  | some sealed ↦ elim t.replaced_at [
    | none ↦ false
    | some at ↦ leb (at + refresh_replay_grace_ms) now
  ]
]

-- `last_used_at IS NULL AND created_at <= now - unusedClientTtlMs AND client_id NOT IN grants`
abbrev pub is_abandoned : ℕ → List GrantRow → ClientRow → Bool
is_abandoned now grants c = elim c.last_used_at [
  | none ↦
      leb (c.created_at + unused_client_ttl_ms) now
      && not (exists (λ g. same g.client_id c.client_id) grants)
  | some used ↦ false
]

abbrev pub drop_replay : TokenRow → TokenRow
drop_replay t = record t { replay_json = none }

unfoldable pub purge : ℕ → Store → Store
purge now s = record {
  clients = delete (is_abandoned now s.grants) s.clients;
  oauth_codes = delete (λ c. leb c.expires_at now) s.oauth_codes;
  grants = s.grants;
  tokens = update (is_stale_replay now) drop_replay (delete (λ t. leb t.expires_at now) s.tokens);
}
