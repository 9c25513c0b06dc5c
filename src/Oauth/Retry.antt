-- ===== src/Oauth/Retry.antt =====
-- A client that lost the reply to a refresh gets it again.
mod Row
use kody_celld.Prelude.{
  ℕ, ◌+◌, ◌≤◌, ◌<◌, Bool, true, false, not, ◌&&◌, Option, none, some, List, [], ◌∷◌, ◌≡◌, ◌≢◌, ◌⊎◌,
  refl, sym, ◌∙◌, ap, Text, same, same_refl, same→eq, same_of_ne, ne_of_same, All, arith,
  Bool-cases, Option-cases, inl, inr, leb, ltb, if◌then◌else◌,
}
use kody_celld.Act.{Result, ok, err}
use kody_celld.Table.{find, exists, delete, update, changed}
use kody_celld.Table.Laws.{test-find, find-delete-some, find-update-some, none_exists, All-find}
use kody_celld.Oauth.Defs.{
  TokenRow, GrantRow, Store, Vault, Error, TokenResponse, purge, refresh_replay_grace_ms,
  is_refresh, is_access, drop_replay, is_stale_replay,
}
use kody_celld.Oauth.Grants.{has_grant_id}
use kody_celld.Oauth.Clients.{touch_client}
use kody_celld.Oauth.Tokens.{
  has_token_hash, in_family, find_refresh, join_grant, Joined, Drawn, Readings, tokens_refresh,
  retire, refresh_found, refresh_row, refresh_current, mark_replaced, touch_grant, rotate,
}
use kody_celld.Oauth.Rotation.{
  refresh_call, retired, rotated, response, access_row, refresh_token_row, access_taken,
  refresh_taken, rotate_outcomes,
}
use kody_celld.Oauth.Sound.Rotate.{replaced}
use kody_celld.Oauth.Reuse.{retry_replays}
use Row.{is_presented, join-parts, kept, spent, find-rotated, find_refresh-purge}

module _ (v : Vault) (at again : Readings) (drawn drawn' : Drawn) (iv iv' token client_id : Text)
    (row : Joined) (s : Store) where
  abbrev presented_hash : Text
  presented_hash = v.sha256_hex token

  abbrev outcome : Store
  outcome = rotated v at drawn iv presented_hash client_id row s

  abbrev answer : TokenResponse
  answer = response v at drawn iv presented_hash client_id row s

  abbrev used_grant : GrantRow
  used_grant =
      changed (has_grant_id row.token.grant_id) (λ g. record g { last_used_at = some at.minted_at })
        row.grant

  grant_of_outcome :
      find (has_grant_id row.token.grant_id) s.grants ≡ some row.grant
      → find (has_grant_id row.token.grant_id) outcome.grants ≡ some used_grant
  unfolding touch_client mark_replaced touch_grant retire
  grant_of_outcome joined =
      find-update-some (has_grant_id row.token.grant_id) (has_grant_id row.token.grant_id) _
        s.grants row.grant (λ x. ground arith) joined

  -- The second call, on the store that a rotation left.
  second_replays :
      find (is_presented presented_hash) s.tokens ≡ some row.token
      → find (has_grant_id row.token.grant_id) s.grants ≡ some row.grant
      → access_taken v at drawn iv presented_hash client_id row s ≡ false
      → refresh_taken v at drawn iv presented_hash client_id row s ≡ false
      → row.grant.client_id ≡ client_id
      → v.open_replay (v.seal_replay iv answer) ≡ some answer
      → again.purged_at < at.now + refresh_replay_grace_ms
      → again.now ≤ at.now + refresh_replay_grace_ms
      → again.purged_at < row.token.expires_at
      → again.now < row.token.expires_at
      → refresh_call v again drawn' iv' token client_id outcome
        ≡ (ok answer, purge again.purged_at outcome)
  second_replays found joined free free' own opened in_time window stored current =
      let used = spent v at drawn iv presented_hash client_id row s found free free' in
      let same_grant : used.grant_id ≡ row.token.grant_id = ground arith in
      let same_expiry : used.expires_at ≡ row.token.expires_at = ground arith in
      let seen =
        find_refresh-purge v again iv presented_hash used used_grant at.now
          (v.seal_replay iv answer) outcome
          (find-rotated v at drawn iv presented_hash client_id row s found free free')
          (rw same_grant (grant_of_outcome joined)) refl in_time (rw same_expiry stored) in
      retry_replays v again drawn' iv' token client_id outcome
        (record { token = used; grant = used_grant }) at.now seen (ground (arith, own))
        (rw same_expiry current) refl (v.seal_replay iv answer) answer window refl opened

module _ (v : Vault) (at : Readings) (drawn : Drawn) (iv token client_id : Text) (row : Joined)
    (s : Store) where
  abbrev pub hash : Text
  hash = v.sha256_hex token

  abbrev pub first : Result Error TokenResponse × Store
  first = refresh_call v at drawn iv token client_id s

  abbrev pub purged : Store
  purged = purge at.purged_at s

  abbrev RotatesTo : Result Error TokenResponse × Store → Type 0
  RotatesTo result =
      (row.grant.client_id ≡ client_id)
      × (at.now < row.token.expires_at)
      × (result ≡ rotate v at drawn iv hash client_id row purged)

  found-rotates :
      (r : TokenResponse)
      → row.token.replaced_at ≡ none
      → (refresh_found v at drawn iv hash client_id (some row) purged).0 ≡ ok r
      → RotatesTo (refresh_found v at drawn iv hash client_id (some row) purged)
  unfolding refresh_found refresh_row refresh_current
  found-rotates r live h = elim (Bool-cases (same row.grant.client_id client_id)) [
    | inr other ↦ absurd (ground (arith, other, h))
    | inl own ↦ elim (Bool-cases (leb row.token.expires_at at.now)) [
      | inl expired ↦ absurd (ground (arith, own, expired, h))
      | inr current ↦ (same→eq _ _ own, ground arith, ground (arith, own, current, live))
    ]
  ]

  -- A call that returns with a live token has rotated it.
  first-rotates :
      (r : TokenResponse)
      → find_refresh hash purged ≡ some row
      → row.token.replaced_at ≡ none
      → first.0 ≡ ok r
      → RotatesTo first
  unfolding tokens_refresh
  first-rotates r found live h =
      rw (found, tokens_refresh) (found-rotates r live (rw (found, tokens_refresh) at h))

  rotate-returns :
      (r : TokenResponse)
      → (rotate v at drawn iv hash client_id row purged).0 ≡ ok r
      → (access_taken v at drawn iv hash client_id row purged ≡ false)
        × (refresh_taken v at drawn iv hash client_id row purged ≡ false)
        × (r ≡ response v at drawn iv hash client_id row purged)
  rotate-returns r h =
      let outcome = rotate_outcomes v at drawn iv hash client_id row purged in
      elim (Bool-cases (access_taken v at drawn iv hash client_id row purged)) [
        | inl taken ↦ absurd (cc (rw (outcome, taken) at h))
        | inr free ↦ elim (Bool-cases (refresh_taken v at drawn iv hash client_id row purged)) [
          | inl taken ↦ absurd (cc (rw (outcome, free, taken) at h))
          | inr free' ↦ (free, free', cc (rw (outcome, free, free') at h))
        ]
      ]

found-parts :
    (hash : Text) (s : Store) (row : Joined)
    → find_refresh hash s ≡ some row
    → (find (is_presented hash) s.tokens ≡ some row.token)
      × (find (has_grant_id row.token.grant_id) s.grants ≡ some row.grant)
unfolding find_refresh
found-parts hash s row found = join-parts (find (is_presented hash) s.tokens) s row found

-- A refresh token that was exchanged may be presented again by its client: while less than the
-- grace of a minute has passed on the clocks of the second call, which does not outlive the row,
-- that call returns the same response and only purges, whatever values it drew.
pub retry_same_response :
    (v : Vault) (at again : Readings) (drawn drawn' : Drawn) (iv iv' token client_id : Text)
    (row : Joined) (s : Store) (r : TokenResponse)
    → find_refresh (v.sha256_hex token) (purge at.purged_at s) ≡ some row
    → row.token.replaced_at ≡ none
    → (refresh_call v at drawn iv token client_id s).0 ≡ ok r
    → v.open_replay (v.seal_replay iv r) ≡ some r
    → again.purged_at < at.now + refresh_replay_grace_ms
    → again.now ≤ at.now + refresh_replay_grace_ms
    → again.purged_at < row.token.expires_at
    → again.now < row.token.expires_at
    → let after = (refresh_call v at drawn iv token client_id s).1 in
      refresh_call v again drawn' iv' token client_id after ≡ (ok r, purge again.purged_at after)
retry_same_response v at again drawn drawn' iv iv' token client_id row s r found live returned
      opened in_time window stored current =
    let t = purge at.purged_at s in
    let hash = v.sha256_hex token in
    let (own, _, is_rotate) =
      first-rotates v at drawn iv token client_id row s r found live returned in
    let (free, free', same_response) =
      rotate-returns v at drawn iv token client_id row s r (rw (← is_rotate) returned) in
    let rotates : refresh_call v at drawn iv token client_id s ≡ (
      ok (response v at drawn iv hash client_id row t),
      rotated v at drawn iv hash client_id row t,
    ) =
      is_rotate
      ∙ rotate_outcomes v at drawn iv hash client_id row t
      ∙ ground (arith, free, free') in
    let (stored_row, joined) = found-parts hash t row found in
    rw (rotates, same_response)
      (second_replays v at again drawn drawn' iv iv' token client_id row t stored_row joined free
        free' own (rw same_response at opened) in_time window stored current)
