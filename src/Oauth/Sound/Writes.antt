-- ===== src/Oauth/Sound/Writes.antt =====
-- Each single write keeps the invariant.
use kody_celld.Prelude.{
  ℕ, Bool, false, List, [], ◌∷◌, ◌≡◌, inl, inr, sym, refl, Text, same, ne_of_same, All, All-weaken,
  arith, Bool-cases,
}
use kody_celld.Table.{changed, update, exists}
use kody_celld.Table.Laws.{none_exists}
use kody_celld.Table.Pairs.{AllPairs, AllPairs-delete, AllPairs-update}
use kody_celld.Oauth.Defs.{ClientRow, CodeRow, GrantRow, TokenRow, Store, drop_replay, purge}
use kody_celld.Oauth.Clients.{has_client_id, insert_client, touch_client}
use kody_celld.Oauth.Codes.{has_code_hash, insert_code}
use kody_celld.Oauth.Grants.{has_grant_id, is_grant_of, insert_grant}
use kody_celld.Oauth.Tokens.{touch_grant, family_revoke, retire}
use kody_celld.Oauth.Sound.Defs.{Separate, SeparateGrants, IsSound}

drop_replay-Separate :
    (test : TokenRow → Bool) (x y : TokenRow)
    → Separate x y
    → Separate (changed test drop_replay x) (changed test drop_replay y)
drop_replay-Separate test x y h = record {
  hashes = ground (arith, h.hashes);
  one_grant = ground (arith, h.one_grant);
  one_live = ground (arith, h.one_live);
}

pub drop_replay-AllPairs :
    (test : TokenRow → Bool) (rows : List TokenRow)
    → AllPairs Separate rows
    → AllPairs Separate (update test drop_replay rows)
drop_replay-AllPairs test rows =
    AllPairs-update Separate test drop_replay (drop_replay-Separate test) rows

pub purge-IsSound : (now : ℕ) (s : Store) → IsSound s → IsSound (purge now s)
unfolding purge
purge-IsSound now s h = record {
  clients = AllPairs-delete _ _ s.clients h.clients;
  oauth_codes = AllPairs-delete _ _ s.oauth_codes h.oauth_codes;
  grants = h.grants;
  tokens = drop_replay-AllPairs _ _ (AllPairs-delete Separate _ s.tokens h.tokens);
}

pub touch_client-IsSound :
    (now : ℕ) (id : Text) (s : Store) → IsSound s → IsSound (touch_client now id s)
unfolding touch_client
touch_client-IsSound now id s h = record {
  clients = AllPairs-update _ _ _ (λ x y d. ground (arith, d)) s.clients h.clients;
  oauth_codes = h.oauth_codes;
  grants = h.grants;
  tokens = h.tokens;
}

pub keep_grant_keys :
    (test : GrantRow → Bool) (change : GrantRow → GrantRow)
    → ((g : GrantRow)
        → ((change g).id ≡ g.id)
          × ((change g).user_id ≡ g.user_id)
          × ((change g).client_id ≡ g.client_id))
    → (rows : List GrantRow) → AllPairs SeparateGrants rows
    → AllPairs SeparateGrants (update test change rows)
keep_grant_keys test change keys rows h =
    AllPairs-update SeparateGrants test change
      (λ x y d. record {
        ids = ground (arith, d.ids, keys x, keys y);
        pairs = ground (arith, d.pairs, keys x, keys y);
      })
      rows h

pub touch_grant-IsSound :
    (now : ℕ) (id : Text) (s : Store) → IsSound s → IsSound (touch_grant now id s)
unfolding touch_grant
touch_grant-IsSound now id s h = record {
  clients = h.clients;
  oauth_codes = h.oauth_codes;
  grants = keep_grant_keys _ _ (λ g. (refl, refl, refl)) s.grants h.grants;
  tokens = h.tokens;
}

pub family_revoke-IsSound :
    (family : Text) (s : Store) → IsSound s → IsSound (family_revoke family s)
unfolding family_revoke
family_revoke-IsSound family s h = record {
  clients = h.clients;
  oauth_codes = h.oauth_codes;
  grants = h.grants;
  tokens = AllPairs-delete Separate _ s.tokens h.tokens;
}

pub retire-IsSound : (family : Text) (s : Store) → IsSound s → IsSound (retire family s)
unfolding retire
retire-IsSound family s h = record {
  clients = h.clients;
  oauth_codes = h.oauth_codes;
  grants = h.grants;
  tokens = drop_replay-AllPairs _ _ (AllPairs-delete Separate _ s.tokens h.tokens);
}

pub insert_client-IsSound :
    (row : ClientRow) (s : Store) → IsSound s → IsSound (insert_client row s).1
unfolding insert_client
insert_client-IsSound row s h = elim (Bool-cases (exists (has_client_id row.client_id) s.clients)) [
  | inl taken ↦ rw taken h
  | inr free ↦ rw free (record {
    clients = (
      All-weaken _ _ s.clients (λ c p e. ne_of_same _ _ p (sym e)) (none_exists _ s.clients free),
      h.clients,
    );
    oauth_codes = h.oauth_codes;
    grants = h.grants;
    tokens = h.tokens;
  })
]

pub insert_code-IsSound : (row : CodeRow) (s : Store) → IsSound s → IsSound (insert_code row s).1
unfolding insert_code
insert_code-IsSound row s h =
    elim (Bool-cases (exists (has_code_hash row.code_hash) s.oauth_codes)) [
      | inl taken ↦ rw taken h
      | inr free ↦ rw free (record {
        clients = h.clients;
        oauth_codes = (
          All-weaken _ _ s.oauth_codes (λ c p e. ne_of_same _ _ p (sym e))
              (none_exists _ s.oauth_codes free),
          h.oauth_codes,
        );
        grants = h.grants;
        tokens = h.tokens;
      })
    ]

pub insert_grant-IsSound : (row : GrantRow) (s : Store) → IsSound s → IsSound (insert_grant row s).1
unfolding insert_grant
insert_grant-IsSound row s h = elim (Bool-cases (exists (has_grant_id row.id) s.grants)) [
  | inl taken ↦ rw taken h
  | inr free ↦ elim (Bool-cases (exists (is_grant_of row.user_id row.client_id) s.grants)) [
    | inl taken ↦ rw (free, taken) h
    | inr free_pair ↦
        rw (free, free_pair)
          (record {
            clients = h.clients;
            oauth_codes = h.oauth_codes;
            grants = (
              separate_new s.grants (none_exists _ s.grants free)
                  (none_exists _ s.grants free_pair),
              h.grants,
            );
            tokens = h.tokens;
          })
  ]
]
  where
    separate_pair :
        (g : GrantRow)
        → has_grant_id row.id g ≡ false
        → is_grant_of row.user_id row.client_id g ≡ false
        → SeparateGrants row g
    separate_pair g p q = record {
      ids = λ e. ne_of_same _ _ p (sym e);
      pairs = elim (Bool-cases (same g.user_id row.user_id)) [
        | inl same_user ↦ inr (λ e. ne_of_same g.client_id row.client_id (ground arith) (sym e))
        | inr other ↦ inl (λ e. ne_of_same _ _ other (sym e))
      ];
    }

    separate_new :
        (rows : List GrantRow)
        → All (λ g. has_grant_id row.id g ≡ false) rows
        → All (λ g. is_grant_of row.user_id row.client_id g ≡ false) rows
        → All (SeparateGrants row) rows
    separate_new [] p q = tt
    separate_new (g ∷ gs) p q = (separate_pair g p.0 q.0, separate_new gs p.1 q.1)
