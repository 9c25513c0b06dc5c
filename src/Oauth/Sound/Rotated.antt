-- ===== src/Oauth/Sound/Rotated.antt =====
-- `rotate` keeps the invariant on each of its three outcomes.
use kody_celld.Prelude.{ℕ, false, List, [], ◌∷◌, ◌≡◌, inl, inr, refl, Text, All, Bool-cases}
use kody_celld.Table.{exists, update}
use kody_celld.Table.Laws.{none_exists}
use kody_celld.Table.Pairs.{AllPairs, AllPairs-update}
use kody_celld.Oauth.Defs.{access, refresh, TokenRow, Store, Vault}
use kody_celld.Oauth.Tokens.{
  has_token_hash, touch_grant, mark_replaced, rotate, Joined, Drawn, Readings, retire, new_token,
}
use kody_celld.Oauth.Rotation.{
  response, with_access, with_both, access_taken, refresh_taken, rotate_outcomes,
}
use kody_celld.Oauth.Sound.Defs.{Separate, IsSound}
use kody_celld.Oauth.Sound.Writes.{touch_grant-IsSound, touch_client-IsSound, retire-IsSound}
use kody_celld.Oauth.Sound.Rotate.{
  Beside, Beside-retire, marked, replaced, marked-Separate, new_access-Separate,
  new_refresh-Separate, All-Both,
}

-- The token table before and after `mark_replaced`, from the table that `retire` left.
module _ (row : TokenRow) (minted_at a_expires r_expires now : ℕ)
    (a_hash r_hash sealed : Text) where
  abbrev a : TokenRow
  a = new_token a_hash access row.grant_id row.family_id minted_at a_expires

  abbrev r : TokenRow
  r = new_token r_hash refresh row.grant_id row.family_id minted_at r_expires

  abbrev mark : List TokenRow → List TokenRow
  mark = update (has_token_hash row.token_hash) (replaced now sealed)

  a-Beside : Beside row a
  a-Beside = record { one_grant = λ e. refl; retired = inr (λ e. refl) }

  with_access-AllPairs :
      (ts : List TokenRow)
      → AllPairs Separate ts
      → All (Beside row) ts
      → exists (has_token_hash a_hash) ts ≡ false
      → AllPairs Separate (a ∷ ts)
  with_access-AllPairs ts h beside free = (
    All-Both (Beside row) _ _ (new_access-Separate row now sealed a_hash minted_at a_expires) ts
        beside (none_exists _ ts free),
    h,
  )

  mark-Separate :
      (ts : List TokenRow)
      → All (Beside row) ts
      → All (λ t. has_token_hash r_hash t ≡ false) ts
      → All (Separate (marked row now sealed r)) (mark ts)
  unfolding update
  mark-Separate [] beside free = tt
  mark-Separate (t ∷ ts) beside free = (
    new_refresh-Separate row now sealed r_hash minted_at r_expires t beside.0 free.0,
    mark-Separate ts beside.1 free.1,
  )

  with_both-AllPairs :
      (ts : List TokenRow)
      → AllPairs Separate ts
      → All (Beside row) ts
      → exists (has_token_hash a_hash) ts ≡ false
      → exists (has_token_hash r_hash) (a ∷ ts) ≡ false
      → AllPairs Separate (mark (r ∷ a ∷ ts))
  unfolding update
  with_both-AllPairs ts h beside free free' = (
    mark-Separate (a ∷ ts) (a-Beside, beside) (none_exists _ (a ∷ ts) free'),
    AllPairs-update Separate (has_token_hash row.token_hash) (replaced now sealed)
        (marked-Separate row now sealed) (a ∷ ts) (with_access-AllPairs ts h beside free),
  )

module _ (v : Vault) (at : Readings) (drawn : Drawn) (iv client_id : Text) (row : Joined)
    (s : Store) (h : IsSound s) (beside : All (Beside row.token) s.tokens) where
  abbrev hash : Text
  hash = row.token.token_hash

  retired-Beside : All (Beside row.token) (retire row.token.family_id s).tokens
  retired-Beside = Beside-retire row.token s beside

  with_access-IsSound :
      access_taken v at drawn iv hash client_id row s ≡ false
      → IsSound (with_access v at drawn iv hash client_id row s)
  with_access-IsSound free =
      let sound = retire-IsSound row.token.family_id s h in
      record {
        clients = sound.clients;
        oauth_codes = sound.oauth_codes;
        grants = sound.grants;
        tokens =
            with_access-AllPairs row.token at.minted_at _ 0 at.now _ hash hash _ sound.tokens
              retired-Beside free;
      }

  marked-IsSound :
      access_taken v at drawn iv hash client_id row s ≡ false
      → refresh_taken v at drawn iv hash client_id row s ≡ false
      → IsSound (
          mark_replaced at.now
            (v.seal_replay iv (response v at drawn iv hash client_id row s))
            hash
            (touch_grant at.minted_at row.token.grant_id
              (with_both v at drawn iv hash client_id row s)))
  unfolding mark_replaced touch_grant
  marked-IsSound free free' =
      let sound = retire-IsSound row.token.family_id s h in
      record {
        clients = sound.clients;
        oauth_codes = sound.oauth_codes;
        grants = (touch_grant-IsSound at.minted_at row.token.grant_id _ sound).grants;
        tokens =
            with_both-AllPairs row.token at.minted_at _ _ at.now _ _ _ _ sound.tokens retired-Beside
              free free';
      }

  pub rotate-IsSound : IsSound (rotate v at drawn iv hash client_id row s).1
  rotate-IsSound =
      rw (rotate_outcomes v at drawn iv hash client_id row s)
        (elim (Bool-cases (access_taken v at drawn iv hash client_id row s)) [
          | inl taken ↦ rw taken (retire-IsSound row.token.family_id s h)
          | inr free ↦ elim (Bool-cases (refresh_taken v at drawn iv hash client_id row s)) [
            | inl taken ↦ rw (free, taken) (with_access-IsSound free)
            | inr free' ↦
                rw (free, free')
                  (touch_client-IsSound at.touched_at client_id _ (marked-IsSound free free'))
          ]
        ])
