-- ===== src/Oauth/Sound/Defs.antt =====
-- The keys of the four tables, and what refresh-token rotation promises of a family.
use kody_celld.Prelude.{Bool, true, false, ◌&&◌, none, some, ◌≡◌, ◌≢◌, ◌⊎◌, sym, []}
use kody_celld.Table.Pairs.{AllPairs}
use kody_celld.Oauth.Defs.{GrantRow, TokenRow, is_refresh, Store}

-- A refresh token that was not yet exchanged for its successor.
abbrev pub is_live : TokenRow → Bool
is_live t = is_refresh t.kind && elim t.replaced_at [ none ↦ true | some at ↦ false ]

-- Two token rows: distinct hashes; one grant to a family; at most one live token to a family.
pub record Separate (a b : TokenRow) : Type 0 where
  pub hashes : a.token_hash ≢ b.token_hash
  pub one_grant : a.family_id ≡ b.family_id → a.grant_id ≡ b.grant_id
  pub one_live : a.family_id ≡ b.family_id → (is_live a ≡ false) ⊎ (is_live b ≡ false)

-- PRIMARY KEY (id), UNIQUE (user_id, client_id)
pub record SeparateGrants (a b : GrantRow) : Type 0 where
  pub ids : a.id ≢ b.id
  pub pairs : (a.user_id ≢ b.user_id) ⊎ (a.client_id ≢ b.client_id)

pub record IsSound (s : Store) : Type 0 where
  pub clients : AllPairs (λ a b. a.client_id ≢ b.client_id) s.clients
  pub oauth_codes : AllPairs (λ a b. a.code_hash ≢ b.code_hash) s.oauth_codes
  pub grants : AllPairs SeparateGrants s.grants
  pub tokens : AllPairs Separate s.tokens

abbrev pub empty : Store
empty = record { clients = []; oauth_codes = []; grants = []; tokens = [] }

pub Separate-flip : (a b : TokenRow) → Separate a b → Separate b a
Separate-flip a b h = record {
  hashes = λ e. h.hashes (sym e);
  one_grant = λ e. sym (h.one_grant (sym e));
  one_live = λ e. elim (h.one_live (sym e)) [ ◌⊎◌.inl p ↦ ◌⊎◌.inr p | ◌⊎◌.inr p ↦ ◌⊎◌.inl p ];
}
