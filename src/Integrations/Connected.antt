-- ===== src/Integrations/Connected.antt =====
-- A link that was opened, and an attempt that fails.
use kody_celld.Prelude.{
  ℕ, false, ◌+◌, Option, none, some, Text, ◌≡◌, inl, inr, refl, ap, sym, ◌∙◌, same_refl, leb,
  Bool-cases, Option-cases,
}
use kody_celld.Crypto.Equal.{constant_time_equal}
use kody_celld.Table.{find, update}
use kody_celld.Table.Laws.{find-update-some}
use kody_celld.Act.{Result, ok, err, then_do}
use kody_celld.Integrations.Defs.{
  connected, IntegrationError, connect_link_invalid, IntegrationRow, ConnectRow, IntegrationStore,
  StoreHost, has_name, has_connect_id, TokenResponse, by_code,
}
use kody_celld.Integrations.Requests.{connect_ticket_ttl_ms}
use kody_celld.Integrations.Store.{row_of}
use kody_celld.Integrations.Tokens.{Drawn, request_tokens}
use kody_celld.Integrations.Connect.{
  connect_row, connect_begin, connect_complete, BeginDrawn, begun, is_open, is_started, is_nonce,
  complete_row, answered_with, exchanged, verifier_of, finish_connect,
}

module _ (host : StoreHost) where
  -- A link that is not open is refused, and nothing is written.
  begin-refused :
      (connect_id ticket : Text) (drawn : BeginDrawn) (now : ℕ) (s : IntegrationStore)
      (row : ConnectRow)
      → connect_row connect_id s ≡ some row
      → is_open row ≡ false
      → connect_begin host connect_id ticket drawn now s ≡ (err connect_link_invalid, s)
  unfolding connect_begin
  begin-refused connect_id ticket drawn now s row here shut = rw (here, shut) refl

  started-row :
      (connect_id : Text) (drawn : BeginDrawn) (now : ℕ) (s : IntegrationStore) (row : ConnectRow)
      → connect_row connect_id s ≡ some row
      → connect_row connect_id
          (record s { connects = update (has_connect_id row.id) (begun host drawn now) s.connects })
        ≡ some (begun host drawn now row)
  unfolding connect_row
  started-row connect_id drawn now s row here =
      find-update-some (has_connect_id connect_id) (has_connect_id row.id) (begun host drawn now)
        s.connects row
        (λ x. elim (Bool-cases (has_connect_id row.id x)) [ inl t ↦ rw t refl | inr f ↦ rw f refl ])
        here
      ∙ rw (same_refl row.id) refl

  begun-state :
      (connect_id ticket : Text) (drawn : BeginDrawn) (now : ℕ) (s s' : IntegrationStore)
      (url : Text)
      → connect_begin host connect_id ticket drawn now s ≡ (ok url, s')
      → (row : ConnectRow) × (connect_row connect_id s ≡ some row)
        × (record s { connects = update (has_connect_id row.id) (begun host drawn now) s.connects }
            ≡ s')
  unfolding connect_begin
  begun-state connect_id ticket drawn now s s' url h =
      elim (Option-cases (find (has_connect_id connect_id) s.connects)) [
        | inl missing ↦ absurd (cc (rw missing at h))
        | inr (row, here) ↦ elim (Bool-cases (is_open row)) [
          | inr shut ↦ absurd (cc (rw (here, shut) at h))
          | inl opened ↦ elim (Bool-cases (leb row.expires_at now)) [
            | inl late ↦ absurd (cc (rw (here, opened, late) at h))
            | inr early ↦
                elim (Bool-cases
                  (constant_time_equal (host.platform.crypto.sha256_hex ticket) row.ticket_hash)) [
                    | inr other ↦ absurd (cc (rw (here, opened, early, other) at h))
                    | inl right ↦ elim (Option-cases (find (has_name row.name) s.integrations)) [
                      | inl gone ↦ absurd (cc (rw (here, opened, early, right, gone) at h))
                      | inr (integration, there) ↦
                          (row, here, ap (λ r. r.1) (rw (here, opened, early, right, there) at h))
                    ]
                  ]
          ]
        ]
      ]

  -- The connect link can be opened once: after an opening that returned an authorize URL, every further
  -- one is refused and writes nothing, whatever ticket it brings.
  pub link_opens_once :
      (connect_id ticket ticket' : Text) (drawn drawn' : BeginDrawn) (now now' : ℕ)
      (s s' : IntegrationStore) (url : Text)
      → connect_begin host connect_id ticket drawn now s ≡ (ok url, s')
      → connect_begin host connect_id ticket' drawn' now' s' ≡ (err connect_link_invalid, s')
  link_opens_once connect_id ticket ticket' drawn drawn' now now' s s' url h =
      let (row, here, written) = begun-state connect_id ticket drawn now s s' url h in
      begin-refused connect_id ticket' drawn' now' s' (begun host drawn now row)
        (ap (connect_row connect_id) (sym written) ∙ started-row connect_id drawn now s row here)
        refl

-- The tables of integrations that two stores have.
abbrev Same : (s t : IntegrationStore) → Type 0
Same s t = t.integrations ≡ s.integrations

-- What an attempt that fails leaves of the integrations.
abbrev ErrKeeps :
    (s : IntegrationStore) → Result IntegrationError (Unit {0}) × IntegrationStore → Type 0
ErrKeeps s (ok a, t) = Unit
ErrKeeps s (err e, t) = Same s t

module _ (host : StoreHost) where
  exchanged-ErrKeeps :
      (integration : IntegrationRow) (row : ConnectRow) (drawn : Drawn) (now : ℕ)
      (s t : IntegrationStore) (r : Result IntegrationError TokenResponse)
      → integration.status ≡ connected
      → Same s t
      → ErrKeeps s (exchanged host integration row drawn now (r, t))
  unfolding finish_connect
  exchanged-ErrKeeps integration row drawn now s t (ok tokens) live h = tt
  exchanged-ErrKeeps integration row drawn now s t (err e) live h = rw live h

  exchange_code-ErrKeeps :
      (integration : IntegrationRow) (row : ConnectRow) (code : Text) (drawn : Drawn) (now : ℕ)
      (s : IntegrationStore) (verifier : Result IntegrationError Text)
      → integration.status ≡ connected
      → ErrKeeps s (
          then_do
            (verifier, s)
            (λ code_verifier t. exchanged host integration row drawn now (
              request_tokens host integration (by_code code row.redirect_uri code_verifier) now t)))
  unfolding request_tokens
  exchange_code-ErrKeeps integration row code drawn now s (err e) live = refl
  exchange_code-ErrKeeps integration row code drawn now s (ok verifier) live =
      exchanged-ErrKeeps integration row drawn now s s _ live refl

  answered-ErrKeeps :
      (integration : IntegrationRow) (row : ConnectRow) (code provider_error : Option Text)
      (drawn : Drawn) (now : ℕ) (s : IntegrationStore)
      → integration.status ≡ connected
      → ErrKeeps s (answered_with host integration row code provider_error drawn now s)
  unfolding finish_connect
  answered-ErrKeeps integration row (some code) none drawn now s live =
      exchange_code-ErrKeeps integration row code drawn now s (verifier_of host row.verifier) live
  answered-ErrKeeps integration row none none drawn now s live = rw live refl
  answered-ErrKeeps integration row code (some provider_error) drawn now s live = rw live refl

  complete-ErrKeeps :
      (integration : IntegrationRow) (row : ConnectRow) (code provider_error : Option Text)
      (drawn : Drawn) (now : ℕ) (s : IntegrationStore)
      → integration.status ≡ connected
      → ErrKeeps s (complete_row host integration row code provider_error drawn now s)
  complete-ErrKeeps integration row code provider_error drawn now s live =
      elim (Bool-cases (leb (row.expires_at + connect_ticket_ttl_ms) now)) [
        | inl late ↦ rw late (unfold finish_connect in refl)
        | inr early ↦
            rw early (answered-ErrKeeps integration row code provider_error drawn now s live)
      ]

  connect_complete-ErrKeeps :
      (connect_id nonce : Text) (code provider_error : Option Text) (drawn : Drawn) (now : ℕ)
      (s : IntegrationStore) (row : ConnectRow) (integration : IntegrationRow)
      → connect_row connect_id s ≡ some row
      → row_of row.name s ≡ some integration
      → integration.status ≡ connected
      → ErrKeeps s (connect_complete host connect_id nonce code provider_error drawn now s)
  unfolding connect_complete
  connect_complete-ErrKeeps connect_id nonce code provider_error drawn now s row integration here
        there live =
      elim (Bool-cases (is_started row)) [
        | inr shut ↦ rw (here, shut) refl
        | inl started ↦ elim (Bool-cases (is_nonce host nonce row.nonce_hash)) [
          | inr other ↦ rw (here, started, other) refl
          | inl right ↦
              rw (here, started, right, there)
                (complete-ErrKeeps integration row code provider_error drawn now s live)
        ]
      ]

  -- A reconnect that fails, for whatever reason, leaves the integrations as they were where the
  -- integration of the attempt is connected: its tokens are kept.
  pub failed_reconnect_keeps :
      (connect_id nonce : Text) (code provider_error : Option Text) (drawn : Drawn) (now : ℕ)
      (s s' : IntegrationStore) (row : ConnectRow) (integration : IntegrationRow)
      (e : IntegrationError)
      → connect_row connect_id s ≡ some row
      → row_of row.name s ≡ some integration
      → integration.status ≡ connected
      → connect_complete host connect_id nonce code provider_error drawn now s ≡ (err e, s')
      → s'.integrations ≡ s.integrations
  failed_reconnect_keeps connect_id nonce code provider_error drawn now s s' row integration e here
        there live h =
      let kept =
        connect_complete-ErrKeeps connect_id nonce code provider_error drawn now s row integration
          here there live in
      rw h at kept
