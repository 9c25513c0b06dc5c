-- ===== src/Oauth/Sound/Methods.antt =====
-- The other methods keep the invariant, whether they return or throw.
use kody_celld.Prelude.{
  ℕ, Bool, not, ◌&&◌, ◌||◌, Option, none, some, refl, Text, same, Bool-cases, inl, inr, leb,
}
use kody_celld.Table.{find, exists, delete}
use kody_celld.Table.Pairs.{AllPairs-delete}
use kody_celld.Act.{keeps_then}
use kody_celld.Oauth.Defs.{is_refresh, TokenRow, GrantRow, CodeRow, Store, Vault, Registration}
use kody_celld.Oauth.Clients.{client_register}
use kody_celld.Oauth.Codes.{AuthCode, code_issue, code_consume, consume_row, has_code_hash}
use kody_celld.Oauth.Grants.{
  GrantInput, grant_ensure, ensure_grant, grant_revoke, grant_revoke_all, is_grant_of,
}
use kody_celld.Oauth.Tokens.{
  has_token_hash, join_grant, Joined, RevokeInput, token_revoke, revoke_joined,
}
use kody_celld.Oauth.Sound.Defs.{Separate, IsSound}
use kody_celld.Oauth.Sound.Writes.{
  purge-IsSound, insert_client-IsSound, insert_code-IsSound, insert_grant-IsSound, keep_grant_keys,
}

pub client_register-IsSound :
    (v : Vault) (purged_at now : ℕ) (id secret : Text) (r : Registration) (s : Store)
    → IsSound s
    → IsSound (client_register v purged_at now id secret r s).1
unfolding client_register
client_register-IsSound v purged_at now id secret r s h =
    keeps_then IsSound _ _ (insert_client-IsSound _ _ (purge-IsSound purged_at s h)) (λ a t k. k)

pub code_issue-IsSound :
    (v : Vault) (now : ℕ) (code : Text) (input : AuthCode) (s : Store)
    → IsSound s
    → IsSound (code_issue v now code input s).1
unfolding code_issue
code_issue-IsSound v now code input s h =
    keeps_then IsSound _ _ (insert_code-IsSound _ s h) (λ a t k. k)

drop_codes :
    (test : CodeRow → Bool) (s : Store)
    → IsSound s
    → IsSound (record s { oauth_codes = delete test s.oauth_codes })
drop_codes test s h = record {
  clients = h.clients;
  oauth_codes = AllPairs-delete _ test s.oauth_codes h.oauth_codes;
  grants = h.grants;
  tokens = h.tokens;
}

drop_tokens :
    (test : TokenRow → Bool) (s : Store)
    → IsSound s
    → IsSound (record s { tokens = delete test s.tokens })
drop_tokens test s h = record {
  clients = h.clients;
  oauth_codes = h.oauth_codes;
  grants = h.grants;
  tokens = AllPairs-delete Separate test s.tokens h.tokens;
}

drop_grants :
    (test : GrantRow → Bool) (s : Store)
    → IsSound s
    → IsSound (record s { grants = delete test s.grants })
drop_grants test s h = record {
  clients = h.clients;
  oauth_codes = h.oauth_codes;
  grants = AllPairs-delete _ test s.grants h.grants;
  tokens = h.tokens;
}

pub code_consume-IsSound :
    (v : Vault) (now : ℕ) (code : Text) (s : Store)
    → IsSound s
    → IsSound (code_consume v now code s).1
unfolding code_consume consume_row
code_consume-IsSound v now code s h =
    consumed (v.sha256_hex code) (find (has_code_hash (v.sha256_hex code)) s.oauth_codes)
  where
    consumed : (hash : Text) (found : Option CodeRow) → IsSound (consume_row hash now found s).1
    consumed hash none = h
    consumed hash (some row) =
        elim (Bool-cases
          (not (exists (has_code_hash hash) s.oauth_codes) || leb row.expires_at now)) [
            | inl refused ↦ rw refused (drop_codes _ s h)
            | inr accepted ↦ rw accepted (drop_codes _ s h)
          ]

pub grant_ensure-IsSound :
    (now : ℕ) (drawn_id : Text) (input : GrantInput) (s : Store)
    → IsSound s
    → IsSound (grant_ensure now drawn_id input s).1
unfolding grant_ensure ensure_grant
grant_ensure-IsSound now drawn_id input s h =
    ensured (find (is_grant_of input.user_id input.client_id) s.grants)
  where
    ensured : (found : Option GrantRow) → IsSound (ensure_grant now drawn_id input found s).1
    ensured none = keeps_then IsSound _ _ (insert_grant-IsSound _ s h) (λ a t k. k)
    ensured (some existing) = record {
      clients = h.clients;
      oauth_codes = h.oauth_codes;
      grants = keep_grant_keys _ _ (λ g. (refl, refl, refl)) s.grants h.grants;
      tokens = h.tokens;
    }

pub grant_revoke-IsSound :
    (user_id grant_id : Text) (s : Store) → IsSound s → IsSound (grant_revoke user_id grant_id s).1
unfolding grant_revoke
grant_revoke-IsSound user_id grant_id s h =
    elim (Bool-cases (exists (λ g. same g.id grant_id && same g.user_id user_id) s.grants)) [
      | inl owned ↦ rw owned (drop_grants _ _ (drop_tokens _ s h))
      | inr missing ↦ rw missing h
    ]

pub grant_revoke_all-IsSound :
    (user_id : Text) (s : Store) → IsSound s → IsSound (grant_revoke_all user_id s)
unfolding grant_revoke_all
grant_revoke_all-IsSound user_id s h = drop_grants _ _ (drop_tokens _ s h)

pub token_revoke-IsSound :
    (v : Vault) (input : RevokeInput) (s : Store) → IsSound s → IsSound (token_revoke v input s).1
unfolding token_revoke
token_revoke-IsSound v input s h =
    revoked (join_grant (find (has_token_hash (v.sha256_hex input.token)) s.tokens) s)
  where
    revoked :
        (found : Option Joined)
        → IsSound (revoke_joined (v.sha256_hex input.token) input.client_id found s).1
    revoked none = h
    revoked (some row) = elim (Bool-cases (same row.grant.client_id input.client_id)) [
      | inr other ↦ rw other h
      | inl own ↦ elim (Bool-cases (is_refresh row.token.kind)) [
        | inl family ↦ rw (own, family) (drop_tokens _ s h)
        | inr single ↦ rw (own, single) (drop_tokens _ s h)
      ]
    ]
