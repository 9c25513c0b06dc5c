-- ===== src/Oauth/Sound/Issue.antt =====
-- `tokensIssue` keeps the invariant: the pair of a family that no token has yet.
use kody_celld.Prelude.{
  ℕ, ◌+◌, ◌*◌, ◌∙◌, ◌⊎◌, All-weaken, false, ◌≡◌, ◌≢◌, refl, sym, Text, ne_of_same, All, arith,
  Bool-cases, inl, inr,
}
use kody_celld.Table.{exists}
use kody_celld.Table.Laws.{All-delete, All-update, none_exists}
use kody_celld.Act.{keeps_then, keeps_after}
use kody_celld.Oauth.Defs.{
  access_token_ttl_seconds, refresh_token_ttl_ms, access, refresh, TokenRow, Store, Vault, purge,
  drop_replay,
}
use kody_celld.Oauth.Clients.{touch_client}
use kody_celld.Oauth.Tokens.{
  has_token_hash, Drawn, IssueInput, insert_token, new_token, mint_refresh, mint_pair, tokens_issue,
}
use kody_celld.Oauth.Sound.Defs.{is_live, IsSound}
use kody_celld.Oauth.Sound.Rotate.{All-Both}
use kody_celld.Oauth.Sound.Writes.{purge-IsSound, touch_client-IsSound, touch_grant-IsSound}

-- A family that no row of the table has.
abbrev pub IsFreshFamily : Text → Store → Type 0
IsFreshFamily family s = All (λ t. t.family_id ≢ family) s.tokens

IsFreshFamily-purge :
    (family : Text) (now : ℕ) (s : Store)
    → IsFreshFamily family s
    → IsFreshFamily family (purge now s)
unfolding purge
IsFreshFamily-purge family now s fresh =
    All-update _ _ drop_replay _ (λ t p. ground (arith, p)) (All-delete _ _ s.tokens fresh)

-- A row that may be beside the new row `r` of its family.
record Fits (r t : TokenRow) : Type 0 where
  one_grant : r.family_id ≡ t.family_id → r.grant_id ≡ t.grant_id
  not_live : r.family_id ≡ t.family_id → (is_live r ≡ false) ⊎ (is_live t ≡ false)

insert_token-IsSound :
    (r : TokenRow) (s : Store) → IsSound s → All (Fits r) s.tokens → IsSound (insert_token r s).1
unfolding insert_token
insert_token-IsSound r s h fits =
    elim (Bool-cases (exists (has_token_hash r.token_hash) s.tokens)) [
      | inl taken ↦ rw taken h
      | inr free ↦ rw free (record {
        clients = h.clients;
        oauth_codes = h.oauth_codes;
        grants = h.grants;
        tokens = (
          All-Both (Fits r) _ _
              (λ t fit other. record {
                hashes = λ e. ne_of_same _ _ other (sym e);
                one_grant = fit.one_grant;
                one_live = fit.not_live;
              })
              s.tokens fits (none_exists _ s.tokens free),
          h.tokens,
        );
      })
    ]

module _ (grant_id family : Text) where
  -- Rows of the new family are its access token and nothing else.
  abbrev IsNewborn : Store → Type 0
  IsNewborn s =
      All (λ t. t.family_id ≡ family → (t.grant_id ≡ grant_id) × (is_live t ≡ false)) s.tokens

  Fits-newborn :
      (r : TokenRow) (s : Store)
      → r.family_id ≡ family
      → r.grant_id ≡ grant_id
      → IsNewborn s
      → All (Fits r) s.tokens
  Fits-newborn r s e g newborn =
      All-weaken _ (Fits r) s.tokens
        (λ t p. record {
          one_grant = λ same_family. ground (arith, p (sym same_family ∙ e), g);
          not_live = λ same_family. inr (p (sym same_family ∙ e)).1;
        })
        newborn

  access-IsNewborn :
      (hash : Text) (now expires_at : ℕ) (s : Store)
      → IsNewborn s
      → IsNewborn (insert_token (new_token hash access grant_id family now expires_at) s).1
  unfolding insert_token
  access-IsNewborn hash now expires_at s newborn =
      elim (Bool-cases (exists (has_token_hash hash) s.tokens)) [
        | inl taken ↦ rw taken newborn
        | inr free ↦ rw free ((λ e. (refl, refl)), newborn)
      ]

-- A new family's first tokens.
module _ (v : Vault) (now : ℕ) (drawn : Drawn) (grant_id family scope : Text) where
  mint_refresh-IsSound :
      (s : Store)
      → IsSound s
      → IsNewborn grant_id family s
      → IsSound (mint_refresh v now drawn grant_id family scope s).1
  unfolding mint_refresh
  mint_refresh-IsSound s h newborn =
      let r =
        new_token (v.sha256_hex drawn.refresh_token) refresh grant_id family now
          (now + refresh_token_ttl_ms) in
      keeps_then {A = Unit {0}} IsSound (insert_token r s) _
        (insert_token-IsSound r s h (Fits-newborn grant_id family r s refl refl newborn))
        (λ b t k. touch_grant-IsSound now grant_id t k)

  mint_pair-IsSound :
      (s : Store)
      → IsSound s
      → IsFreshFamily family s
      → IsSound (mint_pair v now drawn grant_id family scope s).1
  unfolding mint_pair
  mint_pair-IsSound s h fresh =
      let newborn : IsNewborn grant_id family s =
        All-weaken _ _ s.tokens (λ t p e. absurd (p e)) fresh in
      let a =
        new_token (v.sha256_hex drawn.access_token) access grant_id family now
          (now + access_token_ttl_seconds * 1000) in
      keeps_after IsSound (IsNewborn grant_id family) (insert_token a s)
        (λ _. mint_refresh v now drawn grant_id family scope)
        (insert_token-IsSound a s h (Fits-newborn grant_id family a s refl refl newborn))
        (λ b e. access-IsNewborn grant_id family a.token_hash now a.expires_at s newborn)
        (λ b. mint_refresh-IsSound)

pub tokens_issue-IsSound :
    (v : Vault) (purged_at touched_at minted_at : ℕ) (drawn : Drawn) (family : Text)
    (input : IssueInput) (s : Store)
    → IsSound s
    → IsFreshFamily family s
    → IsSound (tokens_issue v purged_at touched_at minted_at drawn family input s).1
unfolding tokens_issue touch_client
tokens_issue-IsSound v purged_at touched_at minted_at drawn family input s h fresh =
    mint_pair-IsSound v minted_at drawn input.grant_id family input.scope _
      (touch_client-IsSound touched_at input.client_id _ (purge-IsSound purged_at s h))
      (IsFreshFamily-purge family purged_at s fresh)
