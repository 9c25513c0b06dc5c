-- ===== src/Integrations/Policies.antt =====
-- What the resolution of a token leaves of the integrations: their names and configs.
use kody_celld.Prelude.{
  ℕ, Bool, true, false, not, ◌||◌, Option, none, some, List, [], ◌∷◌, Text, ◌≡◌, refl, sym, ap, ◌∙◌,
  inl, inr, Bool-cases, map, same,
}
use kody_celld.Table.{find, update}
use kody_celld.Act.{Result, ok, err, keeps_then}
use kody_celld.Crypto.Keyring.{EncryptedValue}
use kody_celld.Gateway.Policy.{is_host_approved}
use kody_celld.Integrations.Defs.{
  OauthFlow, authorization_code, client_credentials, IntegrationConfig, IntegrationStatus, pending,
  connected, auth_failed, IntegrationError, failed, IntegrationRow, IntegrationStore, StoreHost,
  TokenGrant, by_refresh_token, by_client, TokenResponse, has_name,
}
use kody_celld.Integrations.Requests.{usage_permits, is_token_expired}
use kody_celld.Integrations.Store.{row_of, found, require_row, without_tokens, clear_tokens, unseal}
use kody_celld.Integrations.Tokens.{
  Drawn, lift, is_dead, note_failure, with_tokens, store_tokens, failed_refresh, or_unknown,
  request_tokens, refreshed_by, refresh_by, refresh_sealed, refresh_flow, refresh_found, refresh,
  use_row, hand_out, not_live, resolve_live, resolve_row, token_resolve,
}

abbrev pub Policy : Type 0
Policy = Text × IntegrationConfig

abbrev pub policy : IntegrationRow → Policy
policy row = (row.name, row.config)

-- The integrations by name, with their configs.
abbrev pub policies : IntegrationStore → List Policy
policies s = map policy s.integrations

update-policies :
    (hit : IntegrationRow → Bool) (change : IntegrationRow → IntegrationRow)
    (rows : List IntegrationRow)
    → ((r : IntegrationRow) → policy (change r) ≡ policy r)
    → map policy (update hit change rows) ≡ map policy rows
unfolding update
update-policies hit change [] h = refl
update-policies hit change (r ∷ rows) h = elim (Bool-cases (hit r)) [
  | inl t ↦ rw (t, h r, update-policies hit change rows h) refl
  | inr f ↦ rw (f, update-policies hit change rows h) refl
]

module _ (host : StoreHost) (s : IntegrationStore) where
  abbrev Kept : IntegrationStore → Type 0
  Kept t = policies t ≡ policies s

  require_row-Kept : (name : Text) (t : IntegrationStore) → Kept t → Kept (require_row name t).1
  unfolding require_row
  require_row-Kept name t h = found-Kept (row_of name t)
    where
      found-Kept : (o : Option IntegrationRow) → Kept (found o t).1
      found-Kept none = h
      found-Kept (some row) = h

  or_unknown-Kept :
      (o : Option EncryptedValue) (t : IntegrationStore) → Kept t → Kept (or_unknown host o t).1
  or_unknown-Kept none t h = h
  or_unknown-Kept (some value) t h = h

  store_tokens-Kept :
      (name : Text) (drawn : Drawn) (tokens : TokenResponse) (now : ℕ) (t : IntegrationStore)
      → Kept t
      → Kept (store_tokens host name drawn tokens true now t)
  unfolding store_tokens
  store_tokens-Kept name drawn tokens now t h =
      update-policies (has_name name) (with_tokens host drawn tokens true now) t.integrations
        (λ r. refl)
      ∙ h

  failed_refresh-Kept :
      (name : Text) (e : IntegrationError) (now : ℕ) (t : IntegrationStore)
      → Kept t
      → Kept (failed_refresh host name e now t)
  unfolding clear_tokens
  failed_refresh-Kept name e now t h = elim (Bool-cases (is_dead e)) [
    | inl dead ↦ rw dead (
        update-policies (has_name name) (without_tokens auth_failed (some (failed e)) now)
          t.integrations (λ r. refl)
        ∙ h)
    | inr alive ↦
        rw alive
          (update-policies (has_name name) (note_failure e now) t.integrations (λ r. refl) ∙ h)
  ]

  refreshed_by-Kept :
      (name : Text) (drawn : Drawn) (now : ℕ) (r : Result IntegrationError TokenResponse)
      (t : IntegrationStore)
      → Kept t
      → Kept (refreshed_by host name drawn now (r, t)).1
  refreshed_by-Kept name drawn now (err e) t h =
      keeps_then Kept (require_row name (failed_refresh host name e now t)) _
        (require_row-Kept name _ (failed_refresh-Kept name e now t h)) (λ row u k. k)
  refreshed_by-Kept name drawn now (ok tokens) t h =
      keeps_then Kept (require_row name (store_tokens host name drawn tokens true now t)) _
        (require_row-Kept name _ (store_tokens-Kept name drawn tokens now t h))
        (λ row u k.
          keeps_then Kept (or_unknown host row.access u) _ (or_unknown-Kept row.access u k)
            (λ access v l. keeps_then Kept (lift (unseal host access) v) _ l (λ token w m. m)))

  refresh_by-Kept :
      (name : Text) (row : IntegrationRow) (grant : TokenGrant) (drawn : Drawn) (now : ℕ)
      (t : IntegrationStore)
      → Kept t
      → Kept (refresh_by host name row grant drawn now t).1
  unfolding request_tokens
  refresh_by-Kept name row grant drawn now t h = refreshed_by-Kept name drawn now _ t h

  refresh_sealed-Kept :
      (o : Option EncryptedValue) (name : Text) (row : IntegrationRow) (drawn : Drawn) (now : ℕ)
      (t : IntegrationStore)
      → Kept t
      → Kept (refresh_sealed host o name row drawn now t).1
  refresh_sealed-Kept none name row drawn now t h = h
  refresh_sealed-Kept (some sealed) name row drawn now t h =
      keeps_then Kept (lift (unseal host sealed) t) _ h
        (λ token u k. refresh_by-Kept name row (by_refresh_token token) drawn now u k)

  refresh_flow-Kept :
      (flow : OauthFlow) (name : Text) (row : IntegrationRow) (drawn : Drawn) (now : ℕ)
      (t : IntegrationStore)
      → Kept t
      → Kept (refresh_flow host flow name row drawn now t).1
  refresh_flow-Kept client_credentials name row drawn now t h =
      refresh_by-Kept name row by_client drawn now t h
  refresh_flow-Kept authorization_code name row drawn now t h =
      refresh_sealed-Kept row.refresh name row drawn now t h

  refresh_found-Kept :
      (o : Option IntegrationRow) (name : Text) (drawn : Drawn) (now : ℕ) (t : IntegrationStore)
      → Kept t
      → Kept (refresh_found host o name drawn now t).1
  refresh_found-Kept none name drawn now t h = h
  refresh_found-Kept (some row) name drawn now t h =
      refresh_flow-Kept row.config.flow name row drawn now t h

  refresh-Kept :
      (name : Text) (drawn : Drawn) (now : ℕ) (t : IntegrationStore)
      → Kept t
      → Kept (refresh host name drawn now t).1
  unfolding refresh
  refresh-Kept name drawn now t h = refresh_found-Kept (row_of name t) name drawn now t h

  hand_out-Kept :
      (name : Text) (row : IntegrationRow) (access : EncryptedValue) (now : ℕ)
      (t : IntegrationStore)
      → Kept t
      → Kept (hand_out host name row access now t).1
  hand_out-Kept name row access now t h =
      let used = record t {
        integrations = update (has_name name) (use_row host now) t.integrations;
      } in
      keeps_then Kept (lift (unseal host access) used) _
        (update-policies (has_name name) (use_row host now) t.integrations (λ r. refl) ∙ h)
        (λ token u k. k)

  not_live-Kept :
      (flow : OauthFlow) (name : Text) (row : IntegrationRow) (drawn : Drawn) (now : ℕ)
      (t : IntegrationStore)
      → Kept t
      → Kept (not_live host flow name row drawn now t).1
  not_live-Kept client_credentials name row drawn now t h = refresh-Kept name drawn now t h
  not_live-Kept authorization_code name row drawn now t h = h

  resolve_live-Kept :
      (o : Option EncryptedValue) (status : IntegrationStatus) (name : Text) (row : IntegrationRow)
      (force_refresh : Bool) (drawn : Drawn) (now : ℕ) (t : IntegrationStore)
      → Kept t
      → Kept (resolve_live host o status name row force_refresh drawn now t).1
  resolve_live-Kept none status name row force_refresh drawn now t h =
      not_live-Kept row.config.flow name row drawn now t h
  resolve_live-Kept (some access) pending name row force_refresh drawn now t h =
      not_live-Kept row.config.flow name row drawn now t h
  resolve_live-Kept (some access) auth_failed name row force_refresh drawn now t h =
      not_live-Kept row.config.flow name row drawn now t h
  resolve_live-Kept (some access) connected name row force_refresh drawn now t h =
      elim (Bool-cases (force_refresh || is_token_expired row.expires_at now)) [
        | inl due ↦ rw due (refresh-Kept name drawn now t h)
        | inr good ↦ rw good (hand_out-Kept name row access now t h)
      ]

  resolve_row-Kept :
      (o : Option IntegrationRow) (name : Text) (package_name : Option Text) (request_host : Text)
      (force_refresh : Bool) (drawn : Drawn) (now : ℕ) (t : IntegrationStore)
      → Kept t
      → Kept (resolve_row host o name package_name request_host force_refresh drawn now t).1
  resolve_row-Kept none name package_name request_host force_refresh drawn now t h = h
  resolve_row-Kept (some row) name package_name request_host force_refresh drawn now t h =
      elim (Bool-cases (not (usage_permits row.config.usage package_name))) [
        | inl locked ↦ rw locked h
        | inr free ↦
            elim (Bool-cases (not (is_host_approved request_host row.config.allowed_hosts))) [
              | inl other ↦ rw (free, other) h
              | inr own ↦
                  rw (free, own)
                    (resolve_live-Kept row.access row.status name row force_refresh drawn now t h)
            ]
      ]

-- No resolution of a token changes the config of an integration.
pub token_resolve-policies :
    (host : StoreHost) (name : Text) (package_name : Option Text) (request_host : Text)
    (force_refresh : Bool) (drawn : Drawn) (now : ℕ) (s : IntegrationStore)
    → policies (token_resolve host name package_name request_host force_refresh drawn now s).1
      ≡ policies s
unfolding token_resolve
token_resolve-policies host name package_name request_host force_refresh drawn now s =
    resolve_row-Kept host s (row_of name s) name package_name request_host force_refresh drawn now s
      refl

-- Tables with the same configs give a name the same config.
pub same_policies-find :
    (name : Text) (rows rows' : List IntegrationRow) (row : IntegrationRow)
    → map policy rows ≡ map policy rows'
    → find (has_name name) rows ≡ some row
    → (row' : IntegrationRow) × (find (has_name name) rows' ≡ some row')
      × (row'.config ≡ row.config)
unfolding find
same_policies-find name [] rows' row e h = absurd (cc h)
same_policies-find name (r ∷ rows) [] row e h = absurd (cc e)
same_policies-find name (r ∷ rows) (r' ∷ rows') row e h =
    let first : policy r ≡ policy r' = cc e in
    let rest : map policy rows ≡ map policy rows' = cc e in
    let named : r.name ≡ r'.name = ap (λ (p : Policy). p.0) first in
    elim (Bool-cases (same r.name name)) [
      | inl t ↦
          let t' : same r'.name name ≡ true = cc (t, named) in
          let own : r ≡ row = cc (rw t at h) in
          (
            r',
            rw t' refl,
            sym (ap (λ (p : Policy). p.1) first) ∙ ap (λ (x : IntegrationRow). x.config) own,
          )
      | inr f ↦
          let f' : same r'.name name ≡ false = cc (f, named) in
          let (row', here, config) = same_policies-find name rows rows' row rest (rw f at h) in
          (row', rw f' here, config)
    ]
