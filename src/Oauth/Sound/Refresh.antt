-- ===== src/Oauth/Sound/Refresh.antt =====
-- `tokensRefresh` keeps the invariant, whether it returns or throws.
use kody_celld.Prelude.{
  ℕ, Bool, true, ◌&&◌, Option, none, some, ◌≡◌, refl, Text, same, same→eq, arith, Bool-cases,
  Option-cases, inl, inr, leb,
}
use kody_celld.Table.Laws.{test-find}
use kody_celld.Oauth.Defs.{is_refresh, TokenRow, Store, Vault, purge}
use kody_celld.Oauth.Tokens.{
  has_token_hash, find_refresh, join_grant, Joined, Drawn, Readings, tokens_refresh, refresh_found,
  refresh_row, refresh_current, present_again, replay_of,
}
use kody_celld.Oauth.Sound.Defs.{IsSound}
use kody_celld.Oauth.Sound.Writes.{purge-IsSound, family_revoke-IsSound}
use kody_celld.Oauth.Sound.Rotate.{Beside-All}
use kody_celld.Oauth.Sound.Rotated.{rotate-IsSound}

-- The row behind a joined row.
pub find_of_join :
    (o : Option TokenRow) (s : Store) (row : Joined)
    → join_grant o s ≡ some row
    → o ≡ some row.token
unfolding join_grant
find_of_join none s row h = cc
find_of_join (some t) s row h = ground arith

and_true : (a b : Bool) → (a && b) ≡ true → (a ≡ true) × (b ≡ true)
and_true a b h = ground arith

pub find_refresh_hash :
    (hash : Text) (s : Store) (row : Joined)
    → find_refresh hash s ≡ some row
    → row.token.token_hash ≡ hash
unfolding find_refresh
find_refresh_hash hash s row e =
    let stored = find_of_join _ s row e in
    same→eq _ _ (and_true _ _ (test-find _ s.tokens row.token stored)).0

module _ (v : Vault) (at : Readings) (drawn : Drawn) (iv client_id : Text) where
  present_again-IsSound :
      (now : ℕ) (row : TokenRow) (replaced_at : ℕ) (s : Store)
      → IsSound s
      → IsSound (present_again v now row replaced_at s).1
  unfolding present_again
  present_again-IsSound now row replaced_at s h =
      elim (Option-cases (replay_of v now replaced_at row.replay_json)) [
        | inl lost ↦ rw (lost, present_again) (family_revoke-IsSound row.family_id s h)
        | inr (replay, found) ↦ rw (found, present_again) h
      ]

  refresh_current-IsSound :
      (row : Joined) (replaced_at : Option ℕ) (s : Store)
      → IsSound s
      → row.token.replaced_at ≡ replaced_at
      → find_refresh row.token.token_hash s ≡ some row
      → IsSound (refresh_current v at drawn iv row.token.token_hash client_id row replaced_at s).1
  unfolding refresh_current find_refresh
  refresh_current-IsSound row none s h live found =
      let stored = find_of_join _ s row found in
      let (_, kind) =
        and_true (has_token_hash row.token.token_hash row.token) (is_refresh row.token.kind)
          (test-find _ s.tokens row.token stored) in
      rotate-IsSound v at drawn iv client_id row s h
        (Beside-All _ s.tokens row.token h.tokens stored (ground (arith, live, kind)))
  refresh_current-IsSound row (some replaced_at) s h gone found =
      present_again-IsSound at.now row.token replaced_at s h

  refresh_row-IsSound :
      (row : Joined) (s : Store)
      → IsSound s
      → find_refresh row.token.token_hash s ≡ some row
      → IsSound (refresh_row v at drawn iv row.token.token_hash client_id row s).1
  unfolding refresh_row
  refresh_row-IsSound row s h found = elim (Bool-cases (leb row.token.expires_at at.now)) [
    | inl expired ↦ rw expired (family_revoke-IsSound row.token.family_id s h)
    | inr current ↦ rw current (refresh_current-IsSound row _ s h refl found)
  ]

  refresh_found-IsSound :
      (hash : Text) (found : Option Joined) (s : Store)
      → IsSound s
      → find_refresh hash s ≡ found
      → IsSound (refresh_found v at drawn iv hash client_id found s).1
  unfolding refresh_found
  refresh_found-IsSound hash none s h e = h
  refresh_found-IsSound hash (some row) s h e =
      elim (Bool-cases (same row.grant.client_id client_id)) [
        | inl own ↦
            let presented = find_refresh_hash hash s row e in
            rw (own, ← presented) (refresh_row-IsSound row s h (rw (← presented) at e))
        | inr other ↦ rw other h
      ]

  pub tokens_refresh-IsSound :
      (token : Text) (s : Store)
      → IsSound s
      → IsSound
          (tokens_refresh v at drawn iv
            (record { refresh_token = token; client_id = client_id })
            s).1
  unfolding tokens_refresh
  tokens_refresh-IsSound token s h =
      refresh_found-IsSound (v.sha256_hex token) _ (purge at.purged_at s)
        (purge-IsSound at.purged_at s h) refl
