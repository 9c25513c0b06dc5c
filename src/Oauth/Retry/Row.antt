-- ===== src/Oauth/Retry/Row.antt =====
-- The row of a presented token, from the exchange to the next purge.
use kody_celld.Prelude.{
  ℕ, ◌+◌, ◌<◌, Bool, true, false, ◌&&◌, Option, none, some, ◌∷◌, ◌≡◌, sym, ◌∙◌, ap, Text, same,
  same→eq, same_of_ne, ne_of_same, arith, Option-cases, inl, inr, leb,
}
use kody_celld.Table.{find, delete, changed}
use kody_celld.Table.Laws.{test-find, find-delete-some, find-update-some, none_exists, All-find}
use kody_celld.Oauth.Defs.{
  TokenRow, GrantRow, Store, Vault, purge, refresh_replay_grace_ms, is_refresh, drop_replay,
  is_stale_replay,
}
use kody_celld.Oauth.Grants.{has_grant_id}
use kody_celld.Oauth.Clients.{touch_client}
use kody_celld.Oauth.Tokens.{
  has_token_hash, in_family, find_refresh, join_grant, Joined, Drawn, Readings, retire,
  mark_replaced, touch_grant,
}
use kody_celld.Oauth.Rotation.{
  retired, rotated, response, access_row, refresh_token_row, access_taken, refresh_taken,
}
use kody_celld.Oauth.Sound.Rotate.{replaced}

abbrev pub is_presented : Text → TokenRow → Bool
is_presented hash t = has_token_hash hash t && is_refresh t.kind

pub join-parts :
    (o : Option TokenRow) (s : Store) (row : Joined)
    → join_grant o s ≡ some row
    → (o ≡ some row.token) × (find (has_grant_id row.token.grant_id) s.grants ≡ some row.grant)
unfolding join_grant
join-parts none s row h = cc
join-parts (some t) s row h = elim (Option-cases (find (has_grant_id t.grant_id) s.grants)) [
  | inl missing ↦ cc (missing, h)
  | inr (g, found) ↦
      let same_token : t ≡ row.token = ground (arith, found, h) in
      let same_grant : g ≡ row.grant = ground (arith, found, h) in
      (ap some same_token, rw (← same_token) (rw (← same_grant) found))
]

module _ (v : Vault) (at : Readings) (drawn : Drawn) (iv hash client_id : Text) (row : Joined)
    (s : Store) (found : find (is_presented hash) s.tokens ≡ some row.token)
    (free : access_taken v at drawn iv hash client_id row s ≡ false)
    (free' : refresh_taken v at drawn iv hash client_id row s ≡ false) where
  abbrev pub kept : TokenRow
  kept = changed (in_family row.token.family_id) drop_replay row.token

  find-retired :
      find (is_presented hash) (retired v at drawn iv hash client_id row s).tokens ≡ some kept
  unfolding retire
  find-retired =
      find-update-some (is_presented hash) (in_family row.token.family_id) drop_replay _ row.token
        (λ x. ground arith)
        (find-delete-some (is_presented hash) _ s.tokens row.token found
          (ground (arith, test-find (is_presented hash) s.tokens row.token found)))

  -- The row of the presented token after the rotation.
  abbrev pub spent : TokenRow
  spent = replaced at.now (v.seal_replay iv (response v at drawn iv hash client_id row s)) kept

  pub find-rotated :
      find (is_presented hash) (rotated v at drawn iv hash client_id row s).tokens ≡ some spent
  unfolding touch_client mark_replaced touch_grant
  find-rotated =
      let a = access_row v at drawn iv hash client_id row s in
      let r = refresh_token_row v at drawn iv hash client_id row s in
      let ts = (retired v at drawn iv hash client_id row s).tokens in
      let sealed = v.seal_replay iv (response v at drawn iv hash client_id row s) in
      let presented : has_token_hash hash kept ≡ true =
        ground (arith, test-find (is_presented hash) ts kept find-retired) in
      let other : has_token_hash r.token_hash kept ≡ false =
        All-find (λ t. has_token_hash r.token_hash t ≡ false) (is_presented hash) ts kept
          (none_exists (has_token_hash r.token_hash) (a ∷ ts) free').1 find-retired in
      let new_hash : same r.token_hash hash ≡ false =
        same_of_ne _ _ λ e. ne_of_same _ _ other (same→eq _ _ presented ∙ sym e) in
      let skipped : find (is_presented hash) (r ∷ a ∷ ts) ≡ some kept =
        unfold find in ground (arith, find-retired, new_hash) in
      find-update-some (is_presented hash) (has_token_hash hash) (replaced at.now sealed)
        (r ∷ a ∷ ts) kept (λ x. ground arith) skipped
      ∙ ap some (ground (arith, presented))

module _ (v : Vault) (again : Readings) (iv hash : Text) (row : TokenRow) (grant : GrantRow)
    (now : ℕ) (sealed : Text) (s : Store) (found : find (is_presented hash) s.tokens ≡ some row)
    (joined : find (has_grant_id row.grant_id) s.grants ≡ some grant) where
  -- A spent row outlasts a purge that comes in time, with its snapshot.
  pub find_refresh-purge :
      row.replaced_at ≡ some now
      → again.purged_at < now + refresh_replay_grace_ms
      → again.purged_at < row.expires_at
      → find_refresh hash (purge again.purged_at s) ≡ some (record { token = row; grant = grant })
  unfolding purge find_refresh join_grant
  find_refresh-purge replaced_then in_time stored =
      let here : find (is_presented hash) (delete (λ t. leb t.expires_at again.purged_at) s.tokens)
          ≡ some row =
        find-delete-some (is_presented hash) _ s.tokens row found (ground arith) in
      let fresh : is_stale_replay again.purged_at row ≡ false = ground arith in
      rw
        (
          find-update-some (is_presented hash) (is_stale_replay again.purged_at) drop_replay _ row
              (λ x. ground arith) here,
          fresh,
        )
        (ground (arith, joined))
