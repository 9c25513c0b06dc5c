-- ===== src/Account/ApiTokens.antt =====
-- `apiTokenId` and `tokenRevoke`.
use kody_celld.Prelude.{Bool, ◌&&◌, Text, same, take}
use kody_celld.Table.{delete, exists}
use kody_celld.Account.Defs.{TokenRow, Store}

-- `tokenHash.slice(0, 16)`, which is SQL's `substr(token_hash, 1, 16)`
abbrev pub api_token_id : Text → Text
api_token_id token_hash = take 16 token_hash

unfoldable pub token_revoke : (user_id token_id : Text) → Store → Bool × Store
token_revoke user_id token_id s =
    let gone =
      λ (t : TokenRow). same t.user_id user_id && same (api_token_id t.token_hash) token_id in
    (exists gone s.tokens, record s { tokens = delete gone s.tokens })
