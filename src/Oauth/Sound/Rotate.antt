-- ===== src/Oauth/Sound/Rotate.antt =====
-- A rotation keeps the invariant: the new refresh token takes the place of the presented one.
use kody_celld.Prelude.{
  ℕ, Bool, true, false, some, List, [], ◌∷◌, ◌≡◌, ◌⊎◌, inl, inr, sym, refl, Text, same_iff,
  ne_of_same, All, All-weaken, arith, ap,
}
use kody_celld.Table.{find, changed}
use kody_celld.Table.Laws.{All-delete, All-update}
use kody_celld.Table.Pairs.{AllPairs, All-others}
use kody_celld.Oauth.Defs.{TokenRow, Store, drop_replay, access, refresh}
use kody_celld.Oauth.Tokens.{has_token_hash, new_token, retire}
use kody_celld.Oauth.Sound.Defs.{is_live, Separate, Separate-flip}

-- What a row of the table is to the live row of the presented token.
pub record Beside (row t : TokenRow) : Type 0 where
  pub one_grant : t.family_id ≡ row.family_id → t.grant_id ≡ row.grant_id
  pub retired : (t.token_hash ≡ row.token_hash) ⊎ (t.family_id ≡ row.family_id → is_live t ≡ false)

pub Beside-All :
    (test : TokenRow → Bool) (rows : List TokenRow) (row : TokenRow)
    → AllPairs Separate rows
    → find test rows ≡ some row
    → is_live row ≡ true
    → All (Beside row) rows
Beside-All test rows row h found live =
    All-weaken _ _ rows
      (λ t p. elim p [
        | inl same_row ↦ record {
          one_grant = λ e. ap (λ (r : TokenRow). r.grant_id) same_row;
          retired = inl (ap (λ (r : TokenRow). r.token_hash) same_row);
        }
        | inr apart ↦ record {
          one_grant = λ e. sym (apart.one_grant (sym e));
          retired = inr (λ e. ground (arith, apart.one_live (sym e), live));
        }
      ])
      (All-others Separate Separate-flip test rows row h found)

drop_replay-Beside :
    (row : TokenRow) (test : TokenRow → Bool) (t : TokenRow)
    → Beside row t
    → Beside row (changed test drop_replay t)
drop_replay-Beside row test t b = record {
  one_grant = ground (arith, b.one_grant);
  retired = ground (arith, b.retired);
}

pub Beside-retire :
    (row : TokenRow) (s : Store)
    → All (Beside row) s.tokens
    → All (Beside row) (retire row.family_id s).tokens
unfolding retire
Beside-retire row s h =
    All-update (Beside row) _ drop_replay _ (drop_replay-Beside row _)
      (All-delete (Beside row) _ s.tokens h)

abbrev pub replaced : ℕ → Text → TokenRow → TokenRow
replaced now sealed t = record t { replaced_at = some now; replay_json = some sealed }

module _ (row : TokenRow) (now : ℕ) (sealed : Text) where
  -- What `mark_replaced` makes of a row.
  abbrev pub marked : TokenRow → TokenRow
  marked = changed (has_token_hash row.token_hash) (replaced now sealed)

  pub marked-Separate : (x y : TokenRow) → Separate x y → Separate (marked x) (marked y)
  marked-Separate x y d = record {
    hashes = ground (arith, d.hashes);
    one_grant = ground (arith, d.one_grant);
    one_live = ground (arith, d.one_live);
  }

  marked_not_live :
      (t : TokenRow) → Beside row t → t.family_id ≡ row.family_id → is_live (marked t) ≡ false
  marked_not_live t b e = elim (b.retired) [
    | inl presented ↦ ground (arith, (same_iff t.token_hash row.token_hash).1 presented)
    | inr old ↦ ground (arith, old e)
  ]

  -- The new tokens of the row's family beside a row of the table.
  pub new_access-Separate :
      (hash : Text) (at expires_at : ℕ) (t : TokenRow)
      → Beside row t
      → has_token_hash hash t ≡ false
      → Separate (new_token hash access row.grant_id row.family_id at expires_at) t
  new_access-Separate hash at expires_at t b free = record {
    hashes = λ e. ne_of_same _ _ free (sym e);
    one_grant = λ e. sym (b.one_grant (sym e));
    one_live = λ e. inl refl;
  }

  pub new_refresh-Separate :
      (hash : Text) (at expires_at : ℕ) (t : TokenRow)
      → Beside row t
      → has_token_hash hash t ≡ false
      → Separate
          (marked (new_token hash refresh row.grant_id row.family_id at expires_at))
          (marked t)
  new_refresh-Separate hash at expires_at t b free = record {
    hashes = ground (arith, ne_of_same _ _ free);
    one_grant = ground (arith, b.one_grant);
    one_live = λ e. inr (marked_not_live t b (ground (arith, e)));
  }

pub All-Both {ℓ κ μ ν} :
    {A : Type ℓ} (P : A → Type κ) (Q : A → Type μ) (R : A → Type ν)
    → ((a : A) → P a → Q a → R a)
    → (xs : List A) → All P xs
    → All Q xs
    → All R xs
All-Both P Q R f [] p q = tt
All-Both P Q R f (x ∷ xs) p q = (f x p.0 q.0, All-Both P Q R f xs p.1 q.1)
