-- ===== src/Account/Sessions.antt =====
-- `sessionCreate`, `sessionResolve`, `sessionDelete`, `sessionRevoke`, `sessionAlive`.
pub mod Sliding
use kody_celld.Prelude.{
  ℕ, ◌+◌, ◌-◌, ◌≤◌, ◌<◌, Bool, true, false, not, ◌&&◌, ◌≡◌, refl, Option, none, some, List, [], ◌∷◌,
  Text, same, leb, ltb, length, if◌then◌else◌, arith, Option-cases, Bool-cases, inl, inr, take,
}
use kody_celld.Table.{find, delete, update, exists, count_if, changed}
use kody_celld.Act.{Act, ◌>>=◌, ◌>>◌, pure, throw, modify}
use kody_celld.Account.Defs.{SessionRow, Store, Error, constraint_failed, Platform, purge}

abbrev pub has_id_hash : Text → SessionRow → Bool
has_id_hash h row = same row.id_hash h

-- `userAgent?.slice(0, 200) ?? null`
abbrev pub clip_user_agent : Option Text → Option Text
clip_user_agent none = none
clip_user_agent (some agent) = some (take 200 agent)

pub record SessionInput : Type 0 where
  pub user_id : Text
  pub ttl_ms : ℕ
  pub user_agent : Option Text

unfoldable pub insert_session : SessionRow → Act Store Error (Unit {0})
insert_session row s =
    if exists (has_id_hash row.id_hash) s.sessions
    then throw constraint_failed s
    else modify (λ t. record t { sessions = row ∷ t.sessions }) s

-- The secret id and the public id are drawn at random.
unfoldable pub session_create :
    Platform
    → (purged_at now : ℕ) (secret_id public_id : Text) → SessionInput
    → Act Store Error (Text × ℕ)
unfolding insert_session
session_create p purged_at now secret_id public_id input = do
  modify (purge purged_at)
  insert_session (record {
    id_hash = p.sha256_hex secret_id;
    id = public_id;
    user_id = input.user_id;
    created_at = now;
    expires_at = now + input.ttl_ms;
    last_seen_at = now;
    user_agent = clip_user_agent input.user_agent;
  })
  pure (secret_id, now + input.ttl_ms)

pub record SessionRecord : Type 0 where
  pub id : Text
  pub user_id : Text
  pub created_at : ℕ
  pub expires_at : ℕ
  pub last_seen_at : ℕ
  pub user_agent : Option Text

abbrev pub touch_after_ms : ℕ
touch_after_ms = 60000

-- What a use writes to its row, if the last one is more than a minute ago:
-- `now - last_seen_at > 60_000`, on integers.
unfoldable pub touch_session : (now ttl_ms : ℕ) → SessionRow → SessionRow
touch_session now ttl_ms row =
    if ltb (row.last_seen_at + touch_after_ms) now
    then record row { last_seen_at = now; expires_at = now + ttl_ms }
    else row

unfoldable pub resolve_row :
    (now ttl_ms : ℕ) (hash : Text) → Option SessionRow → Store → Option SessionRecord × Store
unfolding touch_session
resolve_row now ttl_ms hash none s = (none, s)
resolve_row now ttl_ms hash (some row) s =
    if leb row.expires_at now
    then (none, record s { sessions = delete (has_id_hash hash) s.sessions })
    else (
      some (record {
        id = row.id;
        user_id = row.user_id;
        created_at = row.created_at;
        expires_at = now + ttl_ms;
        last_seen_at = now;
        user_agent = row.user_agent;
      }),
      if ltb (row.last_seen_at + touch_after_ms) now
          then record s {
            sessions =
                update (has_id_hash hash)
                  (λ r. record r { last_seen_at = now; expires_at = now + ttl_ms }) s.sessions;
          }
          else s,
    )

unfoldable pub session_resolve :
    Platform → (now ttl_ms : ℕ) (id : Text) → Store → Option SessionRecord × Store
unfolding resolve_row
session_resolve p now ttl_ms id s =
    let hash = p.sha256_hex id in resolve_row now ttl_ms hash (find (has_id_hash hash) s.sessions) s

unfoldable pub session_delete : Platform → (id : Text) → Store → Bool × Store
session_delete p id s = (
  exists (has_id_hash (p.sha256_hex id)) s.sessions,
  record s { sessions = delete (has_id_hash (p.sha256_hex id)) s.sessions },
)

-- `sessionId ? … : …`: the empty text is falsy, and means every session of the user.
abbrev pub is_revoked_by : (user_id : Text) → Option Text → SessionRow → Bool
is_revoked_by user_id none r = same r.user_id user_id
is_revoked_by user_id (some []) r = same r.user_id user_id
is_revoked_by user_id (some (c ∷ cs)) r = same r.user_id user_id && same r.id (c ∷ cs)

-- The result is the count of rows written.
unfoldable pub session_revoke : (user_id : Text) → Option Text → Store → ℕ × Store
session_revoke user_id session_id s = (
  count_if (is_revoked_by user_id session_id) s.sessions,
  record s { sessions = delete (is_revoked_by user_id session_id) s.sessions },
)

unfoldable pub session_alive : (now : ℕ) (user_id session_id : Text) → Store → Bool
session_alive now user_id session_id s =
    elim (find (λ (r : SessionRow). same r.id session_id && same r.user_id user_id) s.sessions) [
      | none ↦ false
      | some row ↦ ltb now row.expires_at
    ]
