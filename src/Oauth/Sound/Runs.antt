-- ===== src/Oauth/Sound/Runs.antt =====
-- The stores that calls of the methods can produce from an empty database.
use kody_celld.Prelude.{ℕ, Text}
use kody_celld.Oauth.Defs.{Store, Vault, Registration}
use kody_celld.Oauth.Clients.{client_register}
use kody_celld.Oauth.Codes.{AuthCode, code_issue, code_consume}
use kody_celld.Oauth.Grants.{GrantInput, grant_ensure, grant_revoke, grant_revoke_all}
use kody_celld.Oauth.Tokens.{
  Drawn, Readings, IssueInput, RevokeInput, tokens_refresh, tokens_issue, token_revoke,
}
use kody_celld.Oauth.Sound.Defs.{empty}
use kody_celld.Oauth.Sound.Issue.{IsFreshFamily}

-- One call, with any clock readings and any drawn values; only a family id drawn by `randomId`
-- has to be new. A call that throws is a step too.
pub data Call (v : Vault) : Store → Store → Type 0 where
  register :
      (s : Store) (purged_at now : ℕ) (id secret : Text) (r : Registration)
      → Call v s (client_register v purged_at now id secret r s).1
  issue_code :
      (s : Store) (now : ℕ) (code : Text) (input : AuthCode)
      → Call v s (code_issue v now code input s).1
  consume_code : (s : Store) (now : ℕ) (code : Text) → Call v s (code_consume v now code s).1
  ensure_grant :
      (s : Store) (now : ℕ) (id : Text) (input : GrantInput)
      → Call v s (grant_ensure now id input s).1
  revoke_grant :
      (s : Store) (user_id grant_id : Text) → Call v s (grant_revoke user_id grant_id s).1
  revoke_grants : (s : Store) (user_id : Text) → Call v s (grant_revoke_all user_id s)
  issue_tokens :
      (s : Store) (purged_at touched_at minted_at : ℕ) (drawn : Drawn) (family : Text)
      (input : IssueInput)
      → IsFreshFamily family s
      → Call v s (tokens_issue v purged_at touched_at minted_at drawn family input s).1
  refresh_tokens :
      (s : Store) (at : Readings) (drawn : Drawn) (iv token client_id : Text)
      → Call v s
          (tokens_refresh v at drawn iv
            (record { refresh_token = token; client_id = client_id })
            s).1
  revoke_token : (s : Store) (input : RevokeInput) → Call v s (token_revoke v input s).1

pub data Reach (v : Vault) : Store → Type 0 where
  start : Reach v empty
  next : {s t : Store} → Reach v s → Call v s t → Reach v t
