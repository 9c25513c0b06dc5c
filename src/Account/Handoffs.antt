-- ===== src/Account/Handoffs.antt =====
-- `appHandoffBurn`: a handoff id is accepted once.
use kody_celld.Prelude.{
  ℕ, ◌<◌, Bool, true, false, ◌&&◌, ◌≡◌, List, [], ◌∷◌, Text, same, same_refl, leb, if◌then◌else◌,
  arith, All, Bool-cases, inl, inr,
}
use kody_celld.Table.{delete, exists}
use kody_celld.Table.Laws.{exists-delete_kept, exists_weaken}
use kody_celld.Account.Defs.{HandoffRow, Store}

abbrev pub has_jti : Text → HandoffRow → Bool
has_jti jti row = same row.jti jti

-- INSERT OR IGNORE: a row with the key stays, and nothing is written.
unfoldable pub app_handoff_burn : (now : ℕ) (jti : Text) (expires_at_ms : ℕ) → Store → Bool × Store
app_handoff_burn now jti expires_at_ms s =
    let kept = delete (λ r. leb r.expires_at now) s.app_handoffs in
    if exists (has_jti jti) kept
    then (false, record s { app_handoffs = kept })
    else (true, record s { app_handoffs = record { jti = jti; expires_at = expires_at_ms } ∷ kept })

-- One call, and any number of calls.
pub record Burn : Type 0 where
  pub now : ℕ
  pub jti : Text
  pub expires_at_ms : ℕ

abbrev pub burn : Burn → Store → Bool × Store
burn b = app_handoff_burn b.now b.jti b.expires_at_ms

unfoldable pub burn_all : List Burn → Store → Store
burn_all [] s = s
burn_all (b ∷ bs) s = burn_all bs (burn b s).1

-- A row of the id that is in the table until the instant `until`.
abbrev lasts : Text → ℕ → HandoffRow → Bool
lasts jti until r = same r.jti jti && leb until r.expires_at

abbrev IsBurned : Text → ℕ → Store → Type 0
IsBurned jti until s = exists (lasts jti until) s.app_handoffs ≡ true

module _ (jti : Text) (until : ℕ) where
  lasts_purge :
      (now : ℕ) (s : Store)
      → now < until
      → IsBurned jti until s
      → exists (lasts jti until) (delete (λ r. leb r.expires_at now) s.app_handoffs) ≡ true
  lasts_purge now s early h =
      exists-delete_kept (lasts jti until) _ s.app_handoffs (λ r p. ground arith) h

  burn-IsBurned :
      (b : Burn) (s : Store)
      → b.now < until
      → IsBurned jti until s
      → IsBurned jti until (burn b s).1
  unfolding app_handoff_burn
  burn-IsBurned b s early h =
      let kept = delete (λ (r : HandoffRow). leb r.expires_at b.now) s.app_handoffs in
      elim (Bool-cases (exists (has_jti b.jti) kept)) [
        | inl used ↦ rw used (lasts_purge b.now s early h)
        | inr new ↦ rw new (unfold exists in ground (arith, lasts_purge b.now s early h))
      ]

  burn_all-IsBurned :
      (bs : List Burn) (s : Store)
      → All (λ b. b.now < until) bs
      → IsBurned jti until s
      → IsBurned jti until (burn_all bs s)
  unfolding burn_all
  burn_all-IsBurned [] s early h = h
  burn_all-IsBurned (b ∷ bs) s early h =
      burn_all-IsBurned bs (burn b s).1 early.1 (burn-IsBurned b s early.0 h)

  refused_while_burned :
      (now expires_at_ms : ℕ) (s : Store)
      → now < until
      → IsBurned jti until s
      → (app_handoff_burn now jti expires_at_ms s).0 ≡ false
  unfolding app_handoff_burn
  refused_while_burned now expires_at_ms s early h =
      let used =
        exists_weaken (lasts jti until) (has_jti jti) _ (λ r p. ground arith)
          (lasts_purge now s early h) in
      rw used

accepted-IsBurned :
    (b : Burn) (s : Store) → (burn b s).0 ≡ true → IsBurned b.jti b.expires_at_ms (burn b s).1
unfolding app_handoff_burn exists
accepted-IsBurned b s accepted =
    let kept = delete (λ (r : HandoffRow). leb r.expires_at b.now) s.app_handoffs in
    elim (Bool-cases (exists (has_jti b.jti) kept)) [
      | inl used ↦ absurd (ground (arith, used, accepted))
      | inr new ↦ rw new (ground (arith, same_refl b.jti))
    ]

-- An id that was accepted is refused for as long as its expiry has not passed, whatever ids are
-- presented in between.
pub handoff_once :
    (first : Burn) (between : List Burn) (now expires_at_ms : ℕ) (s : Store)
    → (burn first s).0 ≡ true
    → All (λ b. b.now < first.expires_at_ms) between
    → now < first.expires_at_ms
    → (app_handoff_burn now first.jti expires_at_ms (burn_all between (burn first s).1)).0 ≡ false
handoff_once first between now expires_at_ms s accepted in_time early =
    refused_while_burned first.jti first.expires_at_ms now expires_at_ms _ early (
      burn_all-IsBurned first.jti first.expires_at_ms between _ in_time
        (accepted-IsBurned first s accepted))
