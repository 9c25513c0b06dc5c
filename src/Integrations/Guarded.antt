-- ===== src/Integrations/Guarded.antt =====
-- Whom an access token is handed to, and where it comes from.
use kody_celld.Prelude.{
  ℕ, Bool, true, false, ◌||◌, Option, none, some, Text, ◌≡◌, ◌⊎◌, inl, inr, refl, arith, Bool-cases,
  Option-cases,
}
use kody_celld.Table.{find, update}
use kody_celld.Act.{Act, Result, ok, err, then_do, pure}
use kody_celld.Crypto.Keyring.{EncryptedValue}
use kody_celld.Oauth.Protocol.Redirects.{Url}
use kody_celld.Gateway.Policy.{is_credential_transport_allowed, is_host_approved}
use kody_celld.Integrations.Defs.{
  OauthFlow, authorization_code, client_credentials, IntegrationStatus, pending, connected,
  auth_failed, IntegrationError, IntegrationRow, IntegrationStore, StoreHost, TokenGrant,
  by_refresh_token, by_client, TokenResponse, has_name,
}
use kody_celld.Integrations.Requests.{usage_permits, is_token_expired}
use kody_celld.Integrations.Store.{row_of, unseal, require_row}
use kody_celld.Integrations.Tokens.{
  Drawn, Resolution, resolved, refused, request_tokens, refresh, refreshed_by, refresh_by,
  refresh_flow, refresh_sealed, use_row, not_live, resolve_live, resolve_row, token_resolve,
  or_unknown, failed_refresh, store_tokens,
}

-- What holds of the result of a method, where it returns.
abbrev pub Yields {κ} : {S E A : Type 0} → (A → Type κ) → Result E A × S → Type κ
Yields P (ok a, s) = P a
Yields P (err e, s) = Unit

Yields-then {κ} :
    {S E A B : Type 0} (P : B → Type κ) (r : Result E A × S) (f : A → Act S E B)
    → ((a : A) (s : S) → Yields P (f a s))
    → Yields P (then_do r f)
Yields-then P (ok a, s) f k = k a s
Yields-then P (err e, s) f k = tt

module _ (host : StoreHost) where
  -- The endpoint of a connection is one to which credentials may travel.
  abbrev pub IsTrusted : IntegrationRow → Type 0
  IsTrusted row =
      (url : Url) × (host.platform.parse_url row.config.token_url ≡ some url)
      × (is_credential_transport_allowed host.platform.trim host.platform.to_lower url
            host.insecure_allowance
          ≡ true)

  -- A token as it stands in the table.
  abbrev pub IsStored :
      IntegrationRow → (force_refresh : Bool) → (now : ℕ) → (token : Text) → Type 0
  IsStored row force_refresh now token =
      (access : EncryptedValue) × (row.access ≡ some access)
      × (unseal host access ≡ ok token)
      × (row.status ≡ connected)
      × (force_refresh ≡ false)
      × (is_token_expired row.expires_at now ≡ false)

  request_tokens-IsTrusted :
      (row : IntegrationRow) (grant : TokenGrant) (now : ℕ) (s s' : IntegrationStore)
      (tokens : TokenResponse)
      → request_tokens host row grant now s ≡ (ok tokens, s')
      → IsTrusted row
  unfolding request_tokens
  request_tokens-IsTrusted row grant now s s' tokens h =
      elim (Option-cases (find (has_name row.name) s.integrations)) [
        | inl missing ↦ absurd (cc (rw missing at h))
        | inr (own, here) ↦ elim (Option-cases (host.platform.parse_url row.config.token_url)) [
          | inl bad ↦ absurd (cc (rw (here, bad) at h))
          | inr (url, good) ↦
              elim (Bool-cases (
                is_credential_transport_allowed host.platform.trim host.platform.to_lower url
                  host.insecure_allowance)) [
                    | inl allowed ↦ (url, good, allowed)
                    | inr not_allowed ↦ absurd (cc (rw (here, good, not_allowed) at h))
                  ]
        ]
      ]

  -- What is said of a resolution that hands out a token.
  abbrev pub HandsOut : (A : Text → Bool → Type 0) → Resolution → Type 0
  HandsOut A (resolved token row fresh) = A token fresh
  HandsOut A (refused e row) = Unit

  abbrev IsFresh : IntegrationRow → Text → Bool → Type 0
  IsFresh row token fresh = IsTrusted row × (fresh ≡ true)

  refreshed_by-Yields :
      (row : IntegrationRow) (name : Text) (drawn : Drawn) (now : ℕ)
      (r : Result IntegrationError TokenResponse × IntegrationStore)
      → Yields (λ tokens. IsTrusted row) r
      → Yields (HandsOut (IsFresh row)) (refreshed_by host name drawn now r)
  refreshed_by-Yields row name drawn now (err e, s) h =
      Yields-then (HandsOut (IsFresh row)) (require_row name (failed_refresh host name e now s)) _
        (λ found s1. tt)
  refreshed_by-Yields row name drawn now (ok tokens, s) h =
      Yields-then (HandsOut (IsFresh row))
        (require_row name (store_tokens host name drawn tokens true now s)) _
        (λ found s1.
          Yields-then (HandsOut (IsFresh row)) (or_unknown host found.access s1) _ (λ access s2.
            Yields-then (HandsOut (IsFresh row)) (unseal host access, s2) _
              (λ token s3. (h, refl))))

  request_tokens-Yields :
      (row : IntegrationRow) (grant : TokenGrant) (now : ℕ) (s : IntegrationStore)
      (r : Result IntegrationError TokenResponse × IntegrationStore)
      → request_tokens host row grant now s ≡ r
      → Yields (λ tokens. IsTrusted row) r
  request_tokens-Yields row grant now s (ok tokens, s') e =
      request_tokens-IsTrusted row grant now s s' tokens e
  request_tokens-Yields row grant now s (err e', s') e = tt

  refresh_by-Yields :
      (row : IntegrationRow) (name : Text) (grant : TokenGrant) (drawn : Drawn) (now : ℕ)
      (s : IntegrationStore)
      → Yields (HandsOut (IsFresh row)) (refresh_by host name row grant drawn now s)
  refresh_by-Yields row name grant drawn now s =
      refreshed_by-Yields row name drawn now (request_tokens host row grant now s)
        (request_tokens-Yields row grant now s (request_tokens host row grant now s) refl)

  refresh_sealed-Yields :
      (sealed : Option EncryptedValue) (row : IntegrationRow) (name : Text) (drawn : Drawn)
      (now : ℕ) (s : IntegrationStore)
      → Yields (HandsOut (IsFresh row)) (refresh_sealed host sealed name row drawn now s)
  refresh_sealed-Yields none row name drawn now s = tt
  refresh_sealed-Yields (some sealed) row name drawn now s =
      Yields-then (HandsOut (IsFresh row)) (unseal host sealed, s) _
        (λ token s1. refresh_by-Yields row name (by_refresh_token token) drawn now s1)

  refresh_flow-Yields :
      (flow : OauthFlow) (row : IntegrationRow) (name : Text) (drawn : Drawn) (now : ℕ)
      (s : IntegrationStore)
      → Yields (HandsOut (IsFresh row)) (refresh_flow host flow name row drawn now s)
  refresh_flow-Yields client_credentials row name drawn now s =
      refresh_by-Yields row name by_client drawn now s
  refresh_flow-Yields authorization_code row name drawn now s =
      refresh_sealed-Yields row.refresh row name drawn now s

  refresh-Yields :
      (row : IntegrationRow) (name : Text) (drawn : Drawn) (now : ℕ) (s : IntegrationStore)
      → row_of name s ≡ some row
      → Yields (HandsOut (IsFresh row)) (refresh host name drawn now s)
  unfolding refresh
  refresh-Yields row name drawn now s e =
      rw e (refresh_flow-Yields row.config.flow row name drawn now s)

  -- A token is fresh, or it is the stored one.
  abbrev pub IsSound : IntegrationRow → (force_refresh : Bool) → (now : ℕ) → Text → Bool → Type 0
  IsSound row force_refresh now token fresh =
      (IsTrusted row × (fresh ≡ true)) ⊎ (IsStored row force_refresh now token × (fresh ≡ false))

  fresh-IsSound :
      (row : IntegrationRow) (force_refresh : Bool) (now : ℕ)
      (r : Result IntegrationError Resolution × IntegrationStore)
      → Yields (HandsOut (IsFresh row)) r
      → Yields (HandsOut (IsSound row force_refresh now)) r
  fresh-IsSound row force_refresh now (ok (resolved token row' fresh), s) h = inl h
  fresh-IsSound row force_refresh now (ok (refused e row'), s) h = tt
  fresh-IsSound row force_refresh now (err e, s) h = tt

  not_live-Yields :
      (flow : OauthFlow) (row : IntegrationRow) (name : Text) (force_refresh : Bool) (drawn : Drawn)
      (now : ℕ) (s : IntegrationStore)
      → row_of name s ≡ some row
      → Yields (HandsOut (IsSound row force_refresh now)) (not_live host flow name row drawn now s)
  not_live-Yields client_credentials row name force_refresh drawn now s e =
      fresh-IsSound row force_refresh now (refresh host name drawn now s)
        (refresh-Yields row name drawn now s e)
  not_live-Yields authorization_code row name force_refresh drawn now s e = tt

  hand_out-Yields :
      (access : EncryptedValue) (row : IntegrationRow) (name : Text) (force_refresh : Bool)
      (now : ℕ) (r : Result IntegrationError Text) (s : IntegrationStore)
      → unseal host access ≡ r
      → row.access ≡ some access
      → row.status ≡ connected
      → (force_refresh || is_token_expired row.expires_at now) ≡ false
      → Yields
          (HandsOut (IsSound row force_refresh now))
          (then_do (r, s) (λ token. pure (resolved token row false)))
  hand_out-Yields access row name force_refresh now (err e) s opens stored live unexpired = tt
  hand_out-Yields access row name force_refresh now (ok token) s opens stored live unexpired =
      inr
        ((access, stored, opens, live, ground (arith, unexpired), ground (arith, unexpired)), refl)

  resolve_live-Yields :
      (access : Option EncryptedValue) (status : IntegrationStatus) (row : IntegrationRow)
      (name : Text) (force_refresh : Bool) (drawn : Drawn) (now : ℕ) (s : IntegrationStore)
      → row_of name s ≡ some row
      → row.access ≡ access
      → row.status ≡ status
      → Yields
          (HandsOut (IsSound row force_refresh now))
          (resolve_live host access status name row force_refresh drawn now s)
  resolve_live-Yields none status row name force_refresh drawn now s e stored live =
      not_live-Yields row.config.flow row name force_refresh drawn now s e
  resolve_live-Yields (some access) pending row name force_refresh drawn now s e stored live =
      not_live-Yields row.config.flow row name force_refresh drawn now s e
  resolve_live-Yields (some access) auth_failed row name force_refresh drawn now s e stored live =
      not_live-Yields row.config.flow row name force_refresh drawn now s e
  resolve_live-Yields (some access) connected row name force_refresh drawn now s e stored live =
      elim (Bool-cases (force_refresh || is_token_expired row.expires_at now)) [
        | inl t ↦ rw t (
            fresh-IsSound row force_refresh now (refresh host name drawn now s)
              (refresh-Yields row name drawn now s e))
        | inr f ↦ rw f (
            hand_out-Yields access row name force_refresh now (unseal host access)
              (record s { integrations = update (has_name name) (use_row host now) s.integrations })
              refl stored live f)
      ]

  -- The row that the name has, with its grants.
  abbrev pub IsPermitted :
      (name : Text) (package_name : Option Text) (request_host : Text) (s : IntegrationStore)
      → IntegrationRow
      → Type 0
  IsPermitted name package_name request_host s row =
      (row_of name s ≡ some row)
      × (usage_permits row.config.usage package_name ≡ true)
      × (is_host_approved request_host row.config.allowed_hosts ≡ true)

  abbrev pub IsGuarded :
      (name : Text) (package_name : Option Text) (request_host : Text) (force_refresh : Bool)
      (now : ℕ) (s : IntegrationStore)
      → Text
      → Bool
      → Type 0
  IsGuarded name package_name request_host force_refresh now s token fresh =
      (row : IntegrationRow) × IsPermitted name package_name request_host s row
      × IsSound row force_refresh now token fresh

  with_row :
      (name : Text) (package_name : Option Text) (request_host : Text) (force_refresh : Bool)
      (now : ℕ) (s : IntegrationStore) (row : IntegrationRow)
      (r : Result IntegrationError Resolution × IntegrationStore)
      → IsPermitted name package_name request_host s row
      → Yields (HandsOut (IsSound row force_refresh now)) r
      → Yields (HandsOut (IsGuarded name package_name request_host force_refresh now s)) r
  with_row name package_name request_host force_refresh now s row
        (ok (resolved token row' fresh), s') h k =
      (row, h, k)
  with_row name package_name request_host force_refresh now s row (ok (refused e row'), s') h k = tt
  with_row name package_name request_host force_refresh now s row (err e, s') h k = tt

  resolve_row-Yields :
      (found : Option IntegrationRow) (name : Text) (package_name : Option Text)
      (request_host : Text) (force_refresh : Bool) (drawn : Drawn) (now : ℕ) (s : IntegrationStore)
      → row_of name s ≡ found
      → Yields
          (HandsOut (IsGuarded name package_name request_host force_refresh now s))
          (resolve_row host found name package_name request_host force_refresh drawn now s)
  resolve_row-Yields none name package_name request_host force_refresh drawn now s e = tt
  resolve_row-Yields (some row) name package_name request_host force_refresh drawn now s e =
      elim (Bool-cases (usage_permits row.config.usage package_name)) [
        | inr f ↦ rw f tt
        | inl t ↦ elim (Bool-cases (is_host_approved request_host row.config.allowed_hosts)) [
          | inr g ↦ rw (t, g) tt
          | inl u ↦
              rw (t, u)
                (with_row name package_name request_host force_refresh now s row
                  (resolve_live host row.access row.status name row force_refresh drawn now s)
                  (e, t, u)
                  (resolve_live-Yields row.access row.status row name force_refresh drawn now s e
                    refl refl))
        ]
      ]

  -- An access token is handed out only to a package that the connection is for and for a host among
  -- its allowed hosts. A stored token is that of a connection which is connected and not about to
  -- expire, where no refresh was asked for; a fresh one was asked of an endpoint to which credentials
  -- may travel.
  pub token-IsGuarded :
      (name : Text) (package_name : Option Text) (request_host : Text) (force_refresh : Bool)
      (drawn : Drawn) (now : ℕ) (s s' : IntegrationStore) (token : Text) (row' : IntegrationRow)
      (fresh : Bool)
      → token_resolve host name package_name request_host force_refresh drawn now s
        ≡ (ok (resolved token row' fresh), s')
      → IsGuarded name package_name request_host force_refresh now s token fresh
  unfolding token_resolve
  token-IsGuarded name package_name request_host force_refresh drawn now s s' token row' fresh h =
      let held =
        resolve_row-Yields (row_of name s) name package_name request_host force_refresh drawn now s
          refl in
      rw h at held
