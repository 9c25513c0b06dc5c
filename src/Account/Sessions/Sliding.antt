-- ===== src/Account/Sessions/Sliding.antt =====
-- The sliding expiry of sessions, and what revoking them leaves.
use kody_celld.Prelude.{
  ℕ, ◌+◌, ◌≤◌, ◌<◌, Bool, true, false, ◌&&◌, ◌≡◌, ◌≢◌, refl, ap, sym, ◌∙◌, Option, none, some, [],
  ◌∷◌, Text, same, same→eq, same_of_ne, arith,
}
use kody_celld.Table.{find, update}
use kody_celld.Table.Laws.{
  test-find, find-update-some, find-delete_self, find-delete_other, find-delete-none,
}
use kody_celld.Account.Defs.{SessionRow, Store, Platform}
use kody_celld.Account.Sessions.{
  has_id_hash, touch_session, touch_after_ms, resolve_row, session_resolve, SessionRecord,
  session_revoke, is_revoked_by, session_alive,
}

module _ (p : Platform) (now ttl_ms : ℕ) (id : Text) (s : Store) (row : SessionRow)
    (found : find (has_id_hash (p.sha256_hex id)) s.sessions ≡ some row) where
  abbrev resolved : Option SessionRecord × Store
  resolved = session_resolve p now ttl_ms id s

  abbrev reported : SessionRecord
  reported = record {
    id = row.id;
    user_id = row.user_id;
    created_at = row.created_at;
    expires_at = now + ttl_ms;
    last_seen_at = now;
    user_agent = row.user_agent;
  }

  touched :
      find (has_id_hash (p.sha256_hex id)) (
        update
          (has_id_hash (p.sha256_hex id))
          (λ r. record r { last_seen_at = now; expires_at = now + ttl_ms })
          s.sessions)
      ≡ some (record row { last_seen_at = now; expires_at = now + ttl_ms })
  touched =
      find-update-some (has_id_hash (p.sha256_hex id)) (has_id_hash (p.sha256_hex id)) _ s.sessions
        row (λ x. ground arith) found
      ∙ ap some (ground (arith, test-find (has_id_hash (p.sha256_hex id)) s.sessions row found))

  stored_after :
      now < row.expires_at
      → (resolved.0 ≡ some reported)
        × (find (has_id_hash (p.sha256_hex id)) resolved.1.sessions
            ≡ some (touch_session now ttl_ms row))
  unfolding session_resolve resolve_row touch_session
  stored_after current = rw (found) (ground (arith, touched, found, current))

  dropped_after :
      row.expires_at ≤ now
      → (resolved.0 ≡ none) × (find (has_id_hash (p.sha256_hex id)) resolved.1.sessions ≡ none)
  unfolding session_resolve resolve_row
  dropped_after expired =
      rw (found)
        (ground (arith, expired, find-delete_self (has_id_hash (p.sha256_hex id)) s.sessions))

  -- A session of the lifetime `ttl_ms` resolves exactly while its row has not expired; an expired
  -- row is deleted. After a use the row still lasts its lifetime from the last recorded use, and the
  -- expiry that the call reports is at most a minute later than the one that is stored.
  pub session_sliding :
      row.expires_at ≡ row.last_seen_at + ttl_ms
      → (row.expires_at ≤ now
          → (resolved.0 ≡ none) × (find (has_id_hash (p.sha256_hex id)) resolved.1.sessions ≡ none))
        × (now < row.expires_at
            → (r : SessionRecord) × (stored : SessionRow) × (resolved.0 ≡ some r)
              × (find (has_id_hash (p.sha256_hex id)) resolved.1.sessions ≡ some stored)
              × (stored.expires_at ≡ stored.last_seen_at + ttl_ms)
              × (r.user_id ≡ row.user_id)
              × (r.expires_at ≡ now + ttl_ms)
              × (r.expires_at ≤ stored.expires_at + touch_after_ms))
  unfolding touch_session
  session_sliding lifetime = (
    dropped_after,
    λ current.
        let (shown, stored) = stored_after current in
        (
          reported,
          touch_session now ttl_ms row,
          shown,
          stored,
          ground (arith, lifetime),
          refl,
          refl,
          ground (arith, lifetime),
        ),
  )

-- The row that `session_alive` reads.
abbrev is_session : (user_id session_id : Text) → SessionRow → Bool
is_session user_id session_id r = same r.id session_id && same r.user_id user_id

named_revoked :
    (user_id session_id : Text) (r : SessionRow)
    → is_session user_id session_id r ≡ true
    → is_revoked_by user_id (some session_id) r ≡ true
named_revoked user_id [] r h = ground arith
named_revoked user_id (c ∷ cs) r h = ground arith

other_kept :
    (user_id other session_id : Text) (named : Option Text) (r : SessionRow)
    → other ≢ user_id
    → is_session other session_id r ≡ true
    → is_revoked_by user_id named r ≡ false
other_kept user_id other session_id named r ne h = by_name named
  where
    apart : same r.user_id user_id ≡ false
    apart = same_of_ne _ _ (λ e. ne (sym (same→eq r.user_id other (ground arith)) ∙ e))

    by_name : (n : Option Text) → is_revoked_by user_id n r ≡ false
    by_name none = apart
    by_name (some []) = apart
    by_name (some (c ∷ cs)) = rw apart

module _ (user_id : Text) (s : Store) where
  -- After a revocation no session that it names is alive: all of the user's where no id or an
  -- empty one is given, else the one with the id. The sessions of other users are as alive as before.
  pub revoked_not_alive :
      (now : ℕ) (session_id : Text)
      → (session_alive now user_id session_id (session_revoke user_id none s).1 ≡ false)
        × (session_alive now user_id session_id (session_revoke user_id (some session_id) s).1
            ≡ false)
        × ((other : Text) (named : Option Text)
            → other ≢ user_id
            → session_alive now other session_id (session_revoke user_id named s).1
              ≡ session_alive now other session_id s)
  unfolding session_alive session_revoke
  revoked_not_alive now session_id = (
    rw (
      find-delete-none (is_session user_id session_id) (is_revoked_by user_id none) s.sessions
          (λ r h. ground arith),
      session_alive,
    ),
    rw (
      find-delete-none (is_session user_id session_id) _ s.sessions
          (named_revoked user_id session_id),
      session_alive,
    ),
    λ other named ne. rw (
      find-delete_other (is_session other session_id) (is_revoked_by user_id named) s.sessions
          (λ r. other_kept user_id other session_id named r ne),
      session_alive,
    ),
  )
