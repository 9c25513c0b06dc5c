-- ===== src/Tests/AccountStore.antt =====
-- The sign-in state on concrete inputs.
use kody_celld.Prelude.{
  ℕ, ◌+◌, ◌≤◌, ◌<◌, ◌≡◌, ◌≢◌, refl, inr, false, Option, none, some, List, [], ◌∷◌, Text, codes,
  same, length, arith,
}
use kody_celld.Table.{find, exists, delete, update}
use kody_celld.Act.{err}
use kody_celld.Account.Defs.{
  invite, SigninTokenRow, SessionRow, Store, signin_locked, signin_max_failures, signin_lock_ms,
}
use kody_celld.Account.Passwords.{credential_of, is_locked}
use kody_celld.Account.Passwords.Lockout.{guess, guesses, attempt_of, lockout}
use kody_celld.Account.Links.{signin_token_peek, signin_token_consume, consumed_once}
use kody_celld.Account.Sessions.{
  has_id_hash, session_resolve, SessionRecord, session_revoke, session_alive, touch_after_ms,
}
use kody_celld.Account.Sessions.Sliding.{session_sliding, revoked_not_alive}
use kody_celld.Account.Handoffs.{Burn, burn, burn_all, app_handoff_burn, handoff_once}
use kody_celld.Tests.Vault.{bare}

abbrev link : SigninTokenRow
link = record {
  token_hash = codes "link";
  user_id = codes "u";
  kind = some invite;
  created_at = 0;
  expires_at = 1000;
}

abbrev session : SessionRow
session = record {
  id_hash = codes "cookie";
  id = codes "sess";
  user_id = codes "u";
  created_at = 0;
  expires_at = 100000;
  last_seen_at = 0;
  user_agent = none;
}

abbrev store : Store
store = record {
  credentials =
      record { user_id = codes "u"; password_hash = codes "right password"; updated_at = 0 } ∷ [];
  signin_tokens = link ∷ [];
  sessions = session ∷ [];
  signin_attempts = [];
  app_handoffs = [];
  tokens = [];
}

accounts : Unit {0}
unfolding credential_of is_locked signin_token_peek signin_token_consume session_resolve
    app_handoff_burn find exists delete update same
accounts = tt

abbrev wrong : List (ℕ × Text)
wrong = (1, codes "a") ∷ (2, codes "b") ∷ (3, codes "c") ∷ (4, codes "d") ∷ []

abbrev after_four : Store
after_four = guesses bare [] 0 (codes "me@e") (some (codes "u")) wrong store

abbrev after_five : Store
after_five = (guess bare [] 0 (codes "me@e") (some (codes "u")) 5 (codes "e") after_four).1

lockout_example :
    ((t : ℕ)
      → is_locked t (attempt_of bare [] 0 (codes "me@e") (some (codes "u")) after_four) ≡ false)
    × (length wrong + 1 ≡ signin_max_failures
        → (later : ℕ) (tried : Text) → later < 5 + signin_lock_ms
        → guess bare [] 0 (codes "me@e") (some (codes "u")) later tried after_five
          ≡ (err signin_locked, after_five))
unfolding accounts
lockout_example =
    lockout bare [] 0 (codes "me@e") (some (codes "u")) wrong 5 (codes "e") store refl (omega arith)
      (inr (_, refl, refl), (inr (_, refl, refl), (inr (_, refl, refl), (inr (_, refl, refl), tt))))
      (inr (_, refl, refl))

abbrev spent : Store
spent = (signin_token_consume bare 5 (codes "link") store).1

consumed_once_example :
    (signin_token_peek bare 5 (codes "link") store
      ≡ some (record { kind = invite; user_id = codes "u"; expires_at = 1000 }))
    × ((signin_token_peek bare 9 (codes "link") spent ≡ none)
        × (signin_token_consume bare 9 (codes "link") spent ≡ (none, spent)))
unfolding accounts
consumed_once_example =
    consumed_once bare (codes "link") 5 9 store
      (record { kind = invite; user_id = codes "u"; expires_at = 1000 }) refl

session_sliding_example :
    (100000 ≤ 70000
      → ((session_resolve bare 70000 100000 (codes "cookie") store).0 ≡ none)
        × (find
              (has_id_hash (codes "cookie"))
              (session_resolve bare 70000 100000 (codes "cookie") store).1.sessions
            ≡ none))
    × (70000 < 100000
        → (r : SessionRecord) × (stored : SessionRow) × ((session_resolve bare 70000 100000
              (codes "cookie")
              store).0
            ≡ some r)
          × (find
                (has_id_hash (codes "cookie"))
                (session_resolve bare 70000 100000 (codes "cookie") store).1.sessions
              ≡ some stored)
          × (stored.expires_at ≡ stored.last_seen_at + 100000)
          × (r.user_id ≡ codes "u")
          × (r.expires_at ≡ 70000 + 100000)
          × (r.expires_at ≤ stored.expires_at + touch_after_ms))
unfolding accounts
session_sliding_example =
    session_sliding bare 70000 100000 (codes "cookie") store session refl (omega arith)

revoked_not_alive_example :
    (session_alive 5 (codes "u") (codes "sess") (session_revoke (codes "u") none store).1 ≡ false)
    × (session_alive 5
          (codes "u")
          (codes "sess")
          (session_revoke (codes "u") (some (codes "sess")) store).1
        ≡ false)
    × ((other : Text) (named : Option Text)
        → other ≢ codes "u"
        → session_alive 5 other (codes "sess") (session_revoke (codes "u") named store).1
          ≡ session_alive 5 other (codes "sess") store)
revoked_not_alive_example = revoked_not_alive (codes "u") store 5 (codes "sess")

abbrev burned : Burn
burned = record { now = 1; jti = codes "j"; expires_at_ms = 100 }

abbrev others : List Burn
others = record { now = 50; jti = codes "k"; expires_at_ms = 60 } ∷ []

handoff_once_example :
    (app_handoff_burn 70 (codes "j") 500 (burn_all others (burn burned store).1)).0 ≡ false
unfolding accounts
handoff_once_example = handoff_once burned others 70 500 store refl (omega arith) (omega arith)
