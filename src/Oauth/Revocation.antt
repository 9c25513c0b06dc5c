-- ===== src/Oauth/Revocation.antt =====
-- What revoking leaves behind: `grantRevoke`, `tokenRevoke`.
use kody_celld.Prelude.{
  ℕ, Bool, true, false, ◌&&◌, Option, none, some, ◌≡◌, ◌≢◌, refl, sym, ◌∙◌, Text, same, same_refl,
  same_of_ne, ne_of_same, All, All-weaken, arith, Bool-cases, inl, inr,
}
use kody_celld.Act.{ok}
use kody_celld.Table.{find, exists}
use kody_celld.Table.Laws.{delete-All-false, All-find}
use kody_celld.Oauth.Defs.{TokenRow, Store, Vault, is_refresh, refresh, access}
use kody_celld.Oauth.Grants.{is_under, grant_revoke}
use kody_celld.Oauth.Tokens.{
  has_token_hash, in_family, Joined, join_grant, Resolved, RevokeInput, access_token_resolve,
  join_client, resolve_joined, find_refresh, token_revoke, revoke_joined, family_revoke,
}

-- No token of the grant is left.
abbrev pub HasNoTokens : Text → Store → Type 0
HasNoTokens grant_id s = All (λ t. t.grant_id ≢ grant_id) s.tokens

grant_revoke-HasNoTokens :
    (user_id grant_id : Text) (s : Store)
    → (grant_revoke user_id grant_id s).0 ≡ ok tt
    → HasNoTokens grant_id (grant_revoke user_id grant_id s).1
unfolding grant_revoke
grant_revoke-HasNoTokens user_id grant_id s h =
    elim (Bool-cases (exists (λ g. same g.id grant_id && same g.user_id user_id) s.grants)) [
      | inl owned ↦ rw owned (
          All-weaken _ _ _ (λ t p. ne_of_same _ _ p)
            (delete-All-false (is_under grant_id) s.tokens))
      | inr missing ↦ absurd (cc (rw (missing, grant_revoke) at h))
    ]

joined-resolves :
    (now : ℕ) (o : Option Joined) (s : Store) (r : Resolved)
    → join_client now o s ≡ some r
    → (row : Joined) × (o ≡ some row) × (r.grant_id ≡ row.token.grant_id)
unfolding join_client resolve_joined
joined-resolves now none s r h = cc
joined-resolves now (some row) s r h = (row, refl, ground arith)

pub join-finds :
    (o : Option TokenRow) (s : Store) (row : Joined)
    → join_grant o s ≡ some row
    → o ≡ some row.token
unfolding join_grant
join-finds none s row h = cc
join-finds (some t) s row h = ground arith

module _ (v : Vault) (token grant_id : Text) (s : Store) (gone : HasNoTokens grant_id s) where
  no_access :
      (now : ℕ) (r : Resolved) → access_token_resolve v now token s ≡ some r → r.grant_id ≢ grant_id
  unfolding access_token_resolve
  no_access now r h e =
      let (row, joined, same_grant) = joined-resolves now _ s r h in
      All-find (λ t. t.grant_id ≢ grant_id) _ s.tokens row.token gone (join-finds _ s row joined)
        (sym same_grant ∙ e)

  no_refresh :
      (row : Joined)
      → find_refresh (v.sha256_hex token) s ≡ some row
      → row.token.grant_id ≢ grant_id
  unfolding find_refresh
  no_refresh row h =
      All-find (λ t. t.grant_id ≢ grant_id) _ s.tokens row.token gone (join-finds _ s row h)

-- Once a user has disconnected a client, no access token under that grant resolves and no refresh token of it is found.
pub grant_revoke-resolve :
    (v : Vault) (now : ℕ) (token user_id grant_id : Text) (s : Store)
    → (grant_revoke user_id grant_id s).0 ≡ ok tt
    → ((r : Resolved)
        → access_token_resolve v now token (grant_revoke user_id grant_id s).1 ≡ some r
        → r.grant_id ≢ grant_id)
      × ((row : Joined)
          → find_refresh (v.sha256_hex token) (grant_revoke user_id grant_id s).1 ≡ some row
          → row.token.grant_id ≢ grant_id)
grant_revoke-resolve v now token user_id grant_id s h =
    let t = (grant_revoke user_id grant_id s).1 in
    let gone = grant_revoke-HasNoTokens user_id grant_id s h in
    (no_access v token grant_id t gone now, no_refresh v token grant_id t gone)

pub family_revoke-gone :
    (family : Text) (s : Store) → All (λ t. t.family_id ≢ family) (family_revoke family s).tokens
unfolding family_revoke
family_revoke-gone family s =
    All-weaken _ _ _ (λ t p. ne_of_same _ _ p) (delete-All-false (in_family family) s.tokens)

-- What `tokenRevoke` leaves of its client's own token.
abbrev pub IsEnded : Text → TokenRow → Bool × Store → Type 0
IsEnded hash t result =
    (result.0 ≡ true)
    × (t.kind ≡ refresh → All (λ t'. t'.family_id ≢ t.family_id) result.1.tokens)
    × (t.kind ≡ access → All (λ t'. t'.token_hash ≢ hash) result.1.tokens)

module _ (hash client_id : Text) (row : Joined) (s : Store) where
  own-IsEnded :
      row.grant.client_id ≡ client_id
      → IsEnded hash row.token (revoke_joined hash client_id (some row) s)
  unfolding revoke_joined
  own-IsEnded own =
      rw (own, same_refl)
        (elim (Bool-cases (is_refresh row.token.kind)) [
          | inl family ↦ rw family (
            refl,
            λ k. family_revoke-gone row.token.family_id s,
            λ k. absurd (ground (arith, family, k)),
          )
          | inr single ↦ rw single (
            refl,
            λ k. absurd (ground (arith, single, k)),
            λ k.
                All-weaken _ _ _ (λ t p. ne_of_same _ _ p)
                  (delete-All-false (has_token_hash hash) s.tokens),
          )
        ])

  foreign_unchanged :
      row.grant.client_id ≢ client_id → revoke_joined hash client_id (some row) s ≡ (false, s)
  unfolding revoke_joined
  foreign_unchanged foreign = rw (same_of_ne _ _ foreign)

-- `tokenRevoke` by the client of the token's grant returns true; it leaves no token of the family
-- of a refresh token, and no token with the hash of an access token. By any other client it returns
-- false and writes nothing.
pub token_revoke_lem :
    (v : Vault) (input : RevokeInput) (s : Store) (row : Joined)
    → join_grant (find (has_token_hash (v.sha256_hex input.token)) s.tokens) s ≡ some row
    → (row.grant.client_id ≡ input.client_id
        → IsEnded (v.sha256_hex input.token) row.token (token_revoke v input s))
      × (row.grant.client_id ≢ input.client_id → token_revoke v input s ≡ (false, s))
unfolding token_revoke
token_revoke_lem v input s row found =
    rw (found, token_revoke)
      (
        own-IsEnded (v.sha256_hex input.token) input.client_id row s,
        foreign_unchanged (v.sha256_hex input.token) input.client_id row s,
      )
