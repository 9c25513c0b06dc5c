-- ===== src/Secrets/Keyed.antt =====
-- The primary key of a secret: which rows it names.
use kody_celld.Prelude.{
  true, some, List, same_refl, same→eq, ◌≡◌, ◌≢◌, refl, sym, ◌∙◌, arith, All, All-weaken, inl, inr,
}
use kody_celld.Table.{find}
use kody_celld.Table.Laws.{test-find}
use kody_celld.Table.Pairs.{AllPairs, All-others}
use kody_celld.Secrets.Defs.{
  SecretScope, user_scope, package_scope, session_scope, same_scope, SecretRow, SecretKey, has_key,
  key_of,
}

pub same_scope_refl : (scope : SecretScope) → same_scope scope scope ≡ true
same_scope_refl user_scope = refl
same_scope_refl package_scope = refl
same_scope_refl session_scope = refl

pub same_scope→eq : (a b : SecretScope) → same_scope a b ≡ true → a ≡ b
same_scope→eq user_scope user_scope h = refl
same_scope→eq package_scope package_scope h = refl
same_scope→eq session_scope session_scope h = refl
same_scope→eq user_scope package_scope h = cc h
same_scope→eq user_scope session_scope h = cc h
same_scope→eq package_scope user_scope h = cc h
same_scope→eq package_scope session_scope h = cc h
same_scope→eq session_scope user_scope h = cc h
same_scope→eq session_scope package_scope h = cc h

pub key_of-eq : (k : SecretKey) (row : SecretRow) → has_key k row ≡ true → key_of row ≡ k
key_of-eq k row h =
    let a = same→eq row.name k.name (ground (arith, h)) in
    let b = same_scope→eq row.scope k.scope (ground (arith, h)) in
    let c = same→eq row.package_name k.package_name (ground (arith, h)) in
    λ i. record { name = a i; scope = b i; package_name = c i }

pub has_own_key : (row : SecretRow) → has_key (key_of row) row ≡ true
has_own_key row =
    rw (same_refl row.name, same_scope_refl row.scope, same_refl row.package_name) refl

-- PRIMARY KEY (name, scope, package_name)
abbrev pub IsKeyed : List SecretRow → Type 0
IsKeyed rows = AllPairs (λ a b. key_of a ≢ key_of b) rows

module _ (k : SecretKey) (rows : List SecretRow) (row : SecretRow) where
  pub only_row :
      IsKeyed rows → find (has_key k) rows ≡ some row → All (λ j. has_key k j ≡ true → j ≡ row) rows
  only_row keyed found =
      let mine = key_of-eq k row (test-find (has_key k) rows row found) in
      All-weaken _ _ rows
        (λ j either h. elim either [
          | inl same_row ↦ same_row
          | inr apart ↦ absurd (apart (mine ∙ sym (key_of-eq k j h)))
        ])
        (All-others (λ a b. key_of a ≢ key_of b) (λ a b n e. n (sym e)) (has_key k) rows row keyed
          found)
