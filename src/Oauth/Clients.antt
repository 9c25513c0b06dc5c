-- ===== src/Oauth/Clients.antt =====
-- `clientRegister`, `clientGet`, `clientAuthenticate` and `touchClient`.
use kody_celld.Prelude.{ℕ, Bool, not, Option, none, some, [], ◌∷◌, Text, same, if◌then◌else◌}
use kody_celld.Table.{find, update, exists}
use kody_celld.Act.{Act, ◌>>=◌, ◌>>◌, pure, throw, gets, modify}
use kody_celld.Crypto.Equal.{constant_time_equal_string}
use kody_celld.Oauth.Defs.{
  AuthMethod, no_secret, same_method, Registration, ClientRow, Store, Error, client_id_required,
  unknown_client, secret_required, wrong_auth_method, authentication_failed,
  public_client_sent_secret, constraint_failed, Vault, purge,
}

-- `OAuthClient` without the secret, which `client_register` returns beside it.
pub record Client : Type 0 where
  pub client_id : Text
  pub registration : Registration
  pub created_at : ℕ
  pub last_used_at : Option ℕ

unfoldable pub to_client : ClientRow → Client
to_client row = record {
  client_id = row.client_id;
  registration = row.registration;
  created_at = row.created_at;
  last_used_at = row.last_used_at;
}

abbrev pub has_client_id : Text → ClientRow → Bool
has_client_id id row = same row.client_id id

-- The row of `SELECT * FROM oauth_clients WHERE client_id = ?`.
unfoldable pub client_row : Text → Store → Option ClientRow
client_row id s = find (has_client_id id) s.clients

unfoldable pub client_get : Text → Store → Option Client
unfolding client_row to_client
client_get id s = elim (client_row id s) [ none ↦ none | some row ↦ some (to_client row) ]

unfoldable pub insert_client : ClientRow → Act Store Error (Unit {0})
insert_client row s =
    if exists (has_client_id row.client_id) s.clients
    then throw constraint_failed s
    else modify (λ t. record t { clients = row ∷ t.clients }) s

-- The clock readings come first, then the values drawn at random.
unfoldable pub client_register :
    Vault
    → (purged_at now : ℕ) (client_id drawn_secret : Text) → Registration
    → Act Store Error (Option Client × Option Text)
unfolding client_get insert_client
client_register v purged_at now id drawn_secret registration = do
  modify (purge purged_at)
  let confidential = not (same_method registration.token_endpoint_auth_method no_secret)
  let client_secret : Option Text = if confidential then some drawn_secret else none
  let secret_hash : Option Text = if confidential then some (v.sha256_hex drawn_secret) else none
  insert_client (record {
    client_id = id;
    client_secret_hash = secret_hash;
    registration = registration;
    created_at = now;
    last_used_at = none;
  })
  client ← gets (client_get id)
  pure (client, client_secret)

pub record Credentials : Type 0 where
  pub client_id : Option Text
  pub client_secret : Option Text
  pub method : AuthMethod

-- `!value` on a text that may be null: null and "" are absent.
abbrev pub present : Option Text → Option Text
present none = none
present (some []) = none
present (some (c ∷ cs)) = some (c ∷ cs)

-- The secret of a confidential client, given the hash on its row.
unfoldable pub check_secret : Vault → AuthMethod → Text → Option Text → AuthMethod → Option Error
unfolding constant_time_equal_string
check_secret v registered hash none method = some secret_required
check_secret v registered hash (some secret) method =
    if not (same_method method registered)
    then some wrong_auth_method
    else if not (constant_time_equal_string v.encode (v.sha256_hex secret) hash)
    then some authentication_failed
    else none

-- `if (row.client_secret_hash) … else if (input.clientSecret) …`
unfoldable pub check_sent :
    Vault → AuthMethod → (stored sent : Option Text) → AuthMethod → Option Error
unfolding check_secret
check_sent v registered none none method = none
check_sent v registered none (some secret) method = some public_client_sent_secret
check_sent v registered (some hash) sent method = check_secret v registered hash sent method

unfoldable pub check_credentials : Vault → ClientRow → Credentials → Option Error
unfolding check_sent
check_credentials v row input =
    check_sent v row.registration.token_endpoint_auth_method (present row.client_secret_hash)
      (present input.client_secret) input.method

unfoldable pub authenticate_row : Vault → Credentials → Option ClientRow → Act Store Error Client
unfolding check_credentials to_client
authenticate_row v input none s = throw unknown_client s
authenticate_row v input (some row) s = elim (check_credentials v row input) [
  | none ↦ pure (to_client row) s
  | some e ↦ throw e s
]

unfoldable pub client_authenticate : Vault → Credentials → Act Store Error Client
unfolding authenticate_row client_row
client_authenticate v input s = elim (present input.client_id) [
  | none ↦ throw client_id_required s
  | some id ↦ authenticate_row v input (client_row id s) s
]

unfoldable pub touch_client : ℕ → Text → Store → Store
touch_client now id s = record s {
  clients = update (has_client_id id) (λ c. record c { last_used_at = some now }) s.clients;
}
