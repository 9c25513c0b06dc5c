-- ===== src/Oauth/Authentication.antt =====
-- Who `clientAuthenticate` lets through.
use kody_celld.Prelude.{
  ◌≡◌, ◌↔◌, ◌⊎◌, refl, true, Option, none, some, Text, arith, Option-cases, inl, inr,
}
use kody_celld.Act.{ok}
use kody_celld.Crypto.Equal.{constant_time_equal_iff}
use kody_celld.Oauth.Defs.{AuthMethod, same_method, ClientRow, Store, Vault}
use kody_celld.Oauth.Clients.{
  Client, Credentials, present, client_row, to_client, check_credentials, check_secret, check_sent,
  client_authenticate, authenticate_row,
}

-- What the comment above `clientAuthenticate` asks: no secret from a public client; from a
-- confidential one a secret with the stored hash, by the method that it registered.
abbrev pub Admitted : Vault → AuthMethod → (stored sent : Option Text) → AuthMethod → Type 0
Admitted v registered stored sent method =
    ((stored ≡ none) × (sent ≡ none))
    ⊎ ((hash : Text) × (secret : Text) × (stored ≡ some hash)
        × (sent ≡ some secret)
        × (method ≡ registered)
        × (v.encode (v.sha256_hex secret) ≡ v.encode hash))

abbrev pub Admits : Vault → ClientRow → Credentials → Type 0
Admits v row input =
    Admitted v row.registration.token_endpoint_auth_method (present row.client_secret_hash)
      (present input.client_secret) input.method

same_method→eq : (a b : AuthMethod) → same_method a b ≡ true → a ≡ b
same_method→eq a b h = ground arith

same_method_refl : (a : AuthMethod) → same_method a a ≡ true
same_method_refl a = ground arith

check_secret_iff :
    (v : Vault) (registered method : AuthMethod) (hash secret : Text)
    → (check_secret v registered hash (some secret) method ≡ none)
      ↔ ((method ≡ registered) × (v.encode (v.sha256_hex secret) ≡ v.encode hash))
unfolding check_secret
check_secret_iff v registered method hash secret = (
  λ h. (
    same_method→eq method registered (ground arith),
    (constant_time_equal_iff _ _).0 (ground arith),
  ),
  λ h. rw (h.0, same_method_refl, (constant_time_equal_iff _ _).1 h.1),
)

check_sent_iff :
    (v : Vault) (registered : AuthMethod) (stored sent : Option Text) (method : AuthMethod)
    → (check_sent v registered stored sent method ≡ none) ↔ Admitted v registered stored sent method
unfolding check_sent check_secret
check_sent_iff v registered none none method = (λ h. inl (refl, refl), λ a. refl)
check_sent_iff v registered none (some secret) method = (λ h. cc, λ a. ground (arith, a))
check_sent_iff v registered (some hash) none method = (λ h. cc, λ a. ground (arith, a))
check_sent_iff v registered (some hash) (some secret) method = (
  λ h.
      let (by_method, same_secret) = (check_secret_iff v registered method hash secret).0 h in
      inr (hash, secret, refl, refl, by_method, same_secret),
  λ a. elim a [
    | inl absent ↦ cc (absent.0)
    | inr (h', s', stored, sent, by_method, same_secret) ↦
        let e : h' ≡ hash = ground arith in
        let e' : s' ≡ secret = ground arith in
        (check_secret_iff v registered method hash secret).1 (by_method, cc)
  ],
)

check_credentials_iff :
    (v : Vault) (row : ClientRow) (input : Credentials)
    → (check_credentials v row input ≡ none) ↔ Admits v row input
unfolding check_credentials
check_credentials_iff v row input = check_sent_iff v _ _ _ _

module _ (v : Vault) (input : Credentials) (s : Store) (c : Client) where
  -- What a successful call found.
  abbrev pub Accepts : Option ClientRow → Type 0
  Accepts found = (row : ClientRow) × (found ≡ some row) × (c ≡ to_client row) × Admits v row input

  authenticate_row_iff :
      (found : Option ClientRow) → (authenticate_row v input found s ≡ (ok c, s)) ↔ Accepts found
  unfolding authenticate_row
  authenticate_row_iff none = (λ h. cc, λ a. cc (a.1))
  authenticate_row_iff (some row) = (
    λ h. (row, refl, ground arith, (check_credentials_iff v row input).0 (ground arith)),
    λ a.
        let same_row : a.0 ≡ row = ground (arith, a.1) in
        let admitted : Admits v row input = rw same_row at (a.3) in
        ground (arith, a.2, same_row, (check_credentials_iff v row input).1 admitted),
  )

  -- A caller is let through exactly if it names a stored client, and sends no secret to a public
  -- client, or to a confidential one, by the method that it registered, a secret with the stored
  -- hash. The method then returns that client and writes nothing.
  pub client_authenticate_iff :
      (client_authenticate v input s ≡ (ok c, s))
      ↔ ((id : Text) × (present input.client_id ≡ some id) × Accepts (client_row id s))
  unfolding client_authenticate
  client_authenticate_iff = (
    λ h. elim (Option-cases (present input.client_id)) [
      | inl absent ↦ cc (absent, h)
      | inr (id, named) ↦ (
        id,
        named,
        (authenticate_row_iff (client_row id s)).0 (rw (named, client_authenticate) at h),
      )
    ],
    λ a. rw (a.1, client_authenticate) ((authenticate_row_iff (client_row a.0 s)).1 a.2),
  )
