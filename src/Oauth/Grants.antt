-- ===== src/Oauth/Grants.antt =====
-- `grantEnsure`, `grantRevoke` and `grantRevokeAll`.
use kody_celld.Prelude.{
  ℕ, Bool, ◌&&◌, ◌||◌, Option, none, some, List, [], ◌∷◌, ◌++◌, Text, same, contains, split_from,
  if◌then◌else◌,
}
use kody_celld.Table.{find, delete, update, exists}
use kody_celld.Act.{Act, ◌>>◌, pure, throw, modify}
use kody_celld.Oauth.Defs.{
  GrantRow, TokenRow, Store, Error, constraint_failed, oauth_grant_not_found,
}

-- `text.split(' ')`
unfoldable pub split_space : Text → List Text
unfolding split_from
split_space text = split_from 32 [] text

-- `[...new Set(words)]`: the first of equal words stays.
unfoldable pub unique_from : List Text → List Text → List Text
unfolding contains
unique_from seen [] = []
unique_from seen (w ∷ ws) =
    let repeated = unique_from seen ws in
    let first = w ∷ unique_from (w ∷ seen) ws in if contains w seen then repeated else first

-- `.filter(Boolean)`
unfoldable pub non_empty : List Text → List Text
non_empty [] = []
non_empty ([] ∷ ws) = non_empty ws
non_empty ((c ∷ cs) ∷ ws) = (c ∷ cs) ∷ non_empty ws

-- `words.join(' ')`
unfoldable pub join_space : List Text → Text
join_space [] = []
join_space (w ∷ []) = w
join_space (w ∷ w' ∷ ws) = w ++ (32 ∷ join_space (w' ∷ ws))

unfoldable pub merge_scopes : Text → Text → Text
unfolding split_space unique_from non_empty join_space
merge_scopes old new = join_space (unique_from [] (non_empty (split_space old ++ split_space new)))

abbrev pub is_grant_of : Text → Text → GrantRow → Bool
is_grant_of user client g = same g.user_id user && same g.client_id client

abbrev pub has_grant_id : Text → GrantRow → Bool
has_grant_id id g = same g.id id

abbrev pub is_under : Text → TokenRow → Bool
is_under grant_id t = same t.grant_id grant_id

pub record GrantInput : Type 0 where
  pub user_id : Text
  pub client_id : Text
  pub scope : Text

-- PRIMARY KEY (id) and UNIQUE (user_id, client_id)
unfoldable pub insert_grant : GrantRow → Act Store Error (Unit {0})
insert_grant row s =
    if exists (has_grant_id row.id) s.grants
      || exists (is_grant_of row.user_id row.client_id) s.grants
    then throw constraint_failed s
    else modify (λ t. record t { grants = row ∷ t.grants }) s

unfoldable pub ensure_grant :
    (now : ℕ) (drawn_id : Text) → GrantInput → Option GrantRow → Act Store Error Text
unfolding merge_scopes insert_grant
ensure_grant now drawn_id input (some existing) = do
  modify (λ s. record s {
    grants =
        update (has_grant_id existing.id)
          (λ g. record g {
            scope = merge_scopes existing.scope input.scope;
            last_used_at = some now;
          })
          s.grants;
  })
  pure existing.id
ensure_grant now drawn_id input none = do
  insert_grant (record {
    id = drawn_id;
    user_id = input.user_id;
    client_id = input.client_id;
    scope = input.scope;
    created_at = now;
    last_used_at = some now;
  })
  pure drawn_id

unfoldable pub grant_ensure : (now : ℕ) (drawn_id : Text) → GrantInput → Act Store Error Text
unfolding ensure_grant
grant_ensure now drawn_id input s =
    ensure_grant now drawn_id input (find (is_grant_of input.user_id input.client_id) s.grants) s

unfoldable pub grant_revoke : (user_id grant_id : Text) → Act Store Error (Unit {0})
grant_revoke user_id grant_id s =
    if exists (λ g. same g.id grant_id && same g.user_id user_id) s.grants
    then modify
        (λ t. record t {
          tokens = delete (is_under grant_id) t.tokens;
          grants = delete (has_grant_id grant_id) t.grants;
        })
        s
    else throw oauth_grant_not_found s

unfoldable pub grant_revoke_all : (user_id : Text) → Store → Store
grant_revoke_all user_id s =
    let owned = λ (t : TokenRow).
      exists (λ (g : GrantRow). same g.user_id user_id && same g.id t.grant_id) s.grants in
    record s {
      tokens = delete owned s.tokens;
      grants = delete (λ g. same g.user_id user_id) s.grants;
    }
