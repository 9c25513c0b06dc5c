-- ===== src/Tests/OauthStore.antt =====
-- The authorization server on concrete inputs.
use kody_celld.Prelude.{
  ℕ, ◌≡◌, ◌≢◌, ◌↔◌, ◌⊎◌, refl, inl, none, some, [], ◌∷◌, Text, codes, same, arith,
}
use kody_celld.Table.{find, exists, delete, update}
use kody_celld.Act.{Result, ok, err}
use kody_celld.Oauth.Defs.{
  client_secret_post, authorization_code, Registration, ClientRow, CodeRow, GrantRow, access,
  refresh, TokenRow, Store, TokenResponse, purge, refresh_token_reused, Error,
  refresh_token_expired, unknown_refresh_token,
}
use kody_celld.Oauth.Clients.{
  Credentials, to_client, client_row, client_authenticate, touch_client, client_register,
  insert_client,
}
use kody_celld.Oauth.Codes.{code_consume}
use kody_celld.Oauth.Grants.{grant_revoke, grant_ensure, insert_grant}
use kody_celld.Oauth.Tokens.{
  Joined, Drawn, Readings, tokens_refresh, tokens_issue, find_refresh, refresh_found, refresh_row,
  refresh_current, rotate, token_revoke, join_grant, access_token_resolve, Resolved, mint_pair,
}
use kody_celld.Oauth.Rotation.{refresh_call}
use kody_celld.Oauth.SingleUse.{code_consume_twice}
use kody_celld.Oauth.Authentication.{client_authenticate_iff, Accepts}
use kody_celld.Oauth.Reuse.{HasEnded, reuse_ends_family}
use kody_celld.Oauth.Retry.{retry_same_response}
use kody_celld.Oauth.Revocation.{grant_revoke-resolve}
use kody_celld.Oauth.Sound.Defs.{empty}
use kody_celld.Tests.Vault.{plain}

abbrev registration : Registration
registration = record {
  client_name = codes "Editor";
  redirect_uris = codes "https://e.example/cb" ∷ [];
  token_endpoint_auth_method = client_secret_post;
  grant_types = authorization_code ∷ [];
  client_uri = none;
  logo_uri = none;
  software_id = none;
  software_version = none;
}

abbrev editor : ClientRow
editor = record {
  client_id = codes "c";
  client_secret_hash = some (codes "s3cret");
  registration = registration;
  created_at = 0;
  last_used_at = none;
}

abbrev code_row : CodeRow
code_row = record {
  code_hash = codes "code";
  client_id = codes "c";
  user_id = codes "u";
  redirect_uri = codes "https://e.example/cb";
  code_challenge = codes "x";
  scope = codes "email";
  resource = codes "r";
  created_at = 0;
  expires_at = 600000;
}

abbrev grant : GrantRow
grant = record {
  id = codes "g";
  user_id = codes "u";
  client_id = codes "c";
  scope = codes "email";
  created_at = 0;
  last_used_at = none;
}

abbrev refresh_row_r1 : TokenRow
refresh_row_r1 = record {
  token_hash = codes "r1";
  kind = refresh;
  grant_id = codes "g";
  family_id = codes "f";
  created_at = 0;
  expires_at = 2592000000;
  replaced_at = none;
  replay_json = none;
}

abbrev access_row_a1 : TokenRow
access_row_a1 = record (refresh_row_r1) {
  token_hash = codes "a1";
  kind = access;
  expires_at = 3600000;
}

abbrev store : Store
store = record {
  clients = editor ∷ [];
  oauth_codes = code_row ∷ [];
  grants = grant ∷ [];
  tokens = refresh_row_r1 ∷ access_row_a1 ∷ [];
}

abbrev joined_r1 : Joined
joined_r1 = record { token = refresh_row_r1; grant = grant }

abbrev at : ℕ → Readings
at t = record { purged_at = t; now = t; minted_at = t; touched_at = t }

abbrev drawn : Text → Text → Drawn
drawn a r = record { access_token = a; refresh_token = r }

-- Every function that a refresh runs.
running : Unit {0}
unfolding tokens_refresh purge find_refresh join_grant find exists delete update refresh_found
    refresh_row refresh_current rotate mint_pair touch_client grant_revoke token_revoke
    access_token_resolve code_consume client_row client_register grant_ensure tokens_issue
    insert_client insert_grant same
running = tt

abbrev second : TokenResponse
second = record {
  access_token = codes "a2";
  expires_in = 3600;
  refresh_token = codes "r2";
  scope = codes "email";
}

first_refresh :
    (refresh_call plain
      (at 1000)
      (drawn (codes "a2") (codes "r2"))
      []
      (codes "r1")
      (codes "c")
      store).0
    ≡ ok second
unfolding running
first_refresh = refl

abbrev stale : Text → Text → TokenRow
stale hash snapshot = record (refresh_row_r1) {
  token_hash = hash;
  replaced_at = some 1000;
  replay_json = some snapshot;
}

-- A store in which the token was rotated out at 1000.
abbrev reused : Store
reused = record (store) { tokens = stale (codes "r1") [] ∷ access_row_a1 ∷ [] }

retry_same_response_example :
    let after =
      (refresh_call plain
        (at 1000)
        (drawn (codes "a2") (codes "r2"))
        []
        (codes "r1")
        (codes "c")
        store).1 in
    refresh_call plain
      (at 50000)
      (drawn (codes "a3") (codes "r3"))
      []
      (codes "r1")
      (codes "c")
      after
    ≡ (ok second, purge 50000 after)
unfolding running
retry_same_response_example =
    retry_same_response plain (at 1000) (at 50000) (drawn (codes "a2") (codes "r2"))
      (drawn (codes "a3") (codes "r3")) [] [] (codes "r1") (codes "c") joined_r1 store second refl
      refl first_refresh refl (omega arith) (omega arith) (omega arith) (omega arith)

abbrev late_call : Result Error TokenResponse × Store
late_call =
    refresh_call plain (at 90000) (drawn (codes "a3") (codes "r3")) [] (codes "r1") (codes "c")
      reused

reuse_ends_family_example :
    (codes "c" ≡ codes "c"
      → ((late_call.0 ≡ err refresh_token_expired) ⊎ (late_call.0 ≡ err refresh_token_reused))
        × HasEnded (codes "f") (purge 90000 reused) late_call.1)
    × (codes "c" ≢ codes "c" → late_call ≡ (err unknown_refresh_token, purge 90000 reused))
unfolding running
reuse_ends_family_example =
    reuse_ends_family plain (at 90000) (drawn (codes "a3") (codes "r3")) [] (codes "r1") (codes "c")
      reused
      (record { token = record (stale (codes "r1") []) { replay_json = none }; grant = grant }) 1000
      refl refl (inl (omega arith))

code_consume_twice_example :
    code_consume plain 7 (codes "code") (code_consume plain 5 (codes "code") store).1
    ≡ (none, (code_consume plain 5 (codes "code") store).1)
code_consume_twice_example = code_consume_twice plain (codes "code") 5 7 store

abbrev sent : Credentials
sent = record {
  client_id = some (codes "c");
  client_secret = some (codes "s3cret");
  method = client_secret_post;
}

client_authenticate_iff_example :
    (client_authenticate plain sent store ≡ (ok (to_client editor), store)) ↔ (
      (id : Text) × (some (codes "c") ≡ some id)
      × Accepts plain sent store (to_client editor) (client_row id store))
client_authenticate_iff_example = client_authenticate_iff plain sent store (to_client editor)

grant_revoke-resolve_example :
    ((r : Resolved)
      → access_token_resolve plain 5 (codes "a1") (grant_revoke (codes "u") (codes "g") store).1
        ≡ some r
      → r.grant_id ≢ codes "g")
    × ((row : Joined)
        → find_refresh (codes "a1") (grant_revoke (codes "u") (codes "g") store).1 ≡ some row
        → row.token.grant_id ≢ codes "g")
unfolding running
grant_revoke-resolve_example =
    grant_revoke-resolve plain 5 (codes "a1") (codes "u") (codes "g") store refl

-- One client registers, is granted access, gets tokens and rotates them.
abbrev registered : Store
registered = (client_register plain 0 0 (codes "c") (codes "s3cret") registration empty).1

abbrev granted : Store
granted =
    (grant_ensure 1 (codes "g")
      (record { user_id = codes "u"; client_id = codes "c"; scope = codes "email" }) registered).1

abbrev issued : Store
issued =
    (tokens_issue plain 2 2 2 (drawn (codes "a1") (codes "r1")) (codes "f")
      (record { grant_id = codes "g"; client_id = codes "c"; scope = codes "email" }) granted).1

abbrev refreshed : Store
refreshed =
    (refresh_call plain (at 1000) (drawn (codes "a2") (codes "r2")) [] (codes "r1") (codes "c")
      issued).1
