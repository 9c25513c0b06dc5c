-- ===== src/Oauth/Reuse.antt =====
-- What a refresh token is worth after it was rotated out: a retry within the window is answered
-- with the same response, and any other use by its client ends its family.
use kody_celld.Prelude.{
  ℕ, ◌+◌, ◌≤◌, ◌<◌, none, some, ◌≡◌, ◌≢◌, ◌⊎◌, refl, Text, same_refl, All, Option, inl, inr,
  Bool-cases, same_of_ne, leb, arith,
}
use kody_celld.Act.{Result, ok, err}
use kody_celld.Table.{find}
use kody_celld.Table.Laws.{All-find, find-delete-some}
use kody_celld.Oauth.Defs.{
  Store, Vault, Error, TokenResponse, purge, refresh_token_reused, refresh_token_expired,
  unknown_refresh_token, refresh_replay_grace_ms, TokenRow,
}
use kody_celld.Oauth.Tokens.{
  find_refresh, Joined, Drawn, Readings, tokens_refresh, refresh_found, refresh_row,
  refresh_current, present_again, replay_of, family_revoke, has_token_hash, in_family,
}
use kody_celld.Oauth.Revocation.{family_revoke-gone, join-finds}
use kody_celld.Oauth.Rotation.{refresh_call}

module _ (v : Vault) (at : Readings) (drawn : Drawn) (iv token client_id : Text) (s : Store)
    (row : Joined) (replaced_at : ℕ)
    (found : find_refresh (v.sha256_hex token) (purge at.purged_at s) ≡ some row)
    (own : row.grant.client_id ≡ client_id) (current : at.now < row.token.expires_at)
    (rotated_out : row.token.replaced_at ≡ some replaced_at) where
  abbrev call : Result Error TokenResponse × Store
  call = refresh_call v at drawn iv token client_id s

  refresh_again : call ≡ present_again v at.now row.token replaced_at (purge at.purged_at s)
  unfolding tokens_refresh refresh_found refresh_row refresh_current
  refresh_again =
      rw (tokens_refresh, found) (ground (arith, own, current, rotated_out, same_refl client_id))

  -- Within the window a kept snapshot is the answer, and the call only purges.
  pub retry_replays :
      (sealed : Text) (response : TokenResponse)
      → at.now ≤ replaced_at + refresh_replay_grace_ms
      → row.token.replay_json ≡ some sealed
      → v.open_replay sealed ≡ some response
      → call ≡ (ok response, purge at.purged_at s)
  unfolding present_again replay_of
  retry_replays sealed response window kept opened = rw refresh_again (ground arith)

-- After a call that ended a family: it has no token that can be found, and the others have theirs.
abbrev pub HasEnded : (family_id : Text) → (before after : Store) → Type 0
HasEnded family_id before after =
    All (λ t. t.family_id ≢ family_id) after.tokens
    × ((hash : Text) (found : Joined)
        → find_refresh hash after ≡ some found
        → found.token.family_id ≢ family_id)
    × ((hash : Text) (t : TokenRow)
        → find (has_token_hash hash) before.tokens ≡ some t
        → t.family_id ≢ family_id
        → find (has_token_hash hash) after.tokens ≡ some t)

family_revoke-HasEnded :
    (family_id : Text) (s : Store) → HasEnded family_id s (family_revoke family_id s)
unfolding family_revoke find_refresh
family_revoke-HasEnded family_id s =
    let gone = family_revoke-gone family_id s in
    (
      gone,
      λ hash found e.
          All-find (λ t. t.family_id ≢ family_id) _ (family_revoke family_id s).tokens found.token
            gone (join-finds _ (family_revoke family_id s) found e),
      λ hash t e other.
          find-delete-some (has_token_hash hash) (in_family family_id) s.tokens t e
            (same_of_ne t.family_id family_id other),
    )

-- The snapshot answers no more: its window is over, it is gone, or it does not open.
abbrev pub IsLost : Vault → (now replaced_at : ℕ) → Option Text → Type 0
IsLost v now replaced_at snapshot =
    (replaced_at + refresh_replay_grace_ms < now)
    ⊎ (snapshot ≡ none)
    ⊎ ((sealed : Text) × (snapshot ≡ some sealed) × (v.open_replay sealed ≡ none))

lost-none :
    (v : Vault) (now replaced_at : ℕ) (snapshot : Option Text)
    → IsLost v now replaced_at snapshot
    → replay_of v now replaced_at snapshot ≡ none
unfolding replay_of
lost-none v now replaced_at none h = refl
lost-none v now replaced_at (some sealed) (inl late) = ground (arith, late)
lost-none v now replaced_at (some sealed) (inr (inl gone)) = absurd (cc gone)
lost-none v now replaced_at (some sealed) (inr (inr (other, kept, shut))) =
    let shut_here : v.open_replay sealed ≡ none = cc (kept, shut) in
    elim (Bool-cases (leb now (replaced_at + refresh_replay_grace_ms))) [
      | inl t ↦ rw (t, shut_here) refl
      | inr f ↦ rw f refl
    ]

module _ (v : Vault) (at : Readings) (drawn : Drawn) (iv token client_id : Text) (s : Store)
    (row : Joined)
    (found : find_refresh (v.sha256_hex token) (purge at.purged_at s) ≡ some row) where
  expired_ends :
      row.grant.client_id ≡ client_id
      → row.token.expires_at ≤ at.now
      → refresh_call v at drawn iv token client_id s
        ≡ (err refresh_token_expired, family_revoke row.token.family_id (purge at.purged_at s))
  unfolding tokens_refresh refresh_found refresh_row
  expired_ends own over =
      rw (tokens_refresh, found) (ground (arith, own, over, same_refl client_id))

  foreign_refused :
      row.grant.client_id ≢ client_id
      → refresh_call v at drawn iv token client_id s
        ≡ (err unknown_refresh_token, purge at.purged_at s)
  unfolding tokens_refresh refresh_found
  foreign_refused other =
      rw (tokens_refresh, found) (ground (arith, same_of_ne row.grant.client_id client_id other))

-- A token in the store that was rotated out, whose snapshot answers no more (its window is over, it is
-- gone, or it does not open): where its own client presents it, the call is refused, as expired or as
-- reused, no token of the family is left to be found, and the tokens of other families are as the purge
-- left them; where another client does, it is refused and only purges.
pub reuse_ends_family :
    (v : Vault) (at : Readings) (drawn : Drawn) (iv token client_id : Text) (s : Store)
    (row : Joined) (replaced_at : ℕ)
    → find_refresh (v.sha256_hex token) (purge at.purged_at s) ≡ some row
    → row.token.replaced_at ≡ some replaced_at
    → IsLost v at.now replaced_at row.token.replay_json
    → let call = refresh_call v at drawn iv token client_id s in
      (row.grant.client_id ≡ client_id
        → ((call.0 ≡ err refresh_token_expired) ⊎ (call.0 ≡ err refresh_token_reused))
          × HasEnded row.token.family_id (purge at.purged_at s) call.1)
      × (row.grant.client_id ≢ client_id → call ≡ (err unknown_refresh_token, purge at.purged_at s))
unfolding present_again
reuse_ends_family v at drawn iv token client_id s row replaced_at found rotated_out lost =
    let family = row.token.family_id in
    let ended = family_revoke-HasEnded family (purge at.purged_at s) in
    (
      λ own. elim (Bool-cases (leb row.token.expires_at at.now)) [
        | inl t ↦
            let over : row.token.expires_at ≤ at.now = ground (arith, t) in
            rw (expired_ends v at drawn iv token client_id s row found own over) (inl refl, ended)
        | inr f ↦
            let current : at.now < row.token.expires_at = ground (arith, f) in
            rw
              (refresh_again v at drawn iv token client_id s row replaced_at found own current
                rotated_out)
              (rw (lost-none v at.now replaced_at row.token.replay_json lost, present_again)
                (inr refl, ended))
      ],
      foreign_refused v at drawn iv token client_id s row found,
    )
