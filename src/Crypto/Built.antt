-- ===== src/Crypto/Built.antt =====
-- The keyring that `buildMasterKeyring` makes.
use kody_celld.Prelude.{
  Option, none, some, List, [], ◌∷◌, Text, same_refl, same_sym, ◌≡◌, ◌≢◌, refl, sym, subst, ◌∙◌,
  arith, All, All-weaken,
}
use kody_celld.Table.{find, select}
use kody_celld.Table.Counts.{select-none}
use kody_celld.Crypto.Keyring.{
  WebCrypto, MasterKey, MasterKeyring, has_id, unique_keys, keyring_of, keep_new,
  build_master_keyring, candidates,
}

-- A value that names the current key is opened with the current key alone.
abbrev pub IsKeyring : MasterKeyring → Type 0
IsKeyring keyring = candidates keyring (some keyring.current.id) ≡ keyring.current ∷ []

-- The keyring with no previous keys.
abbrev pub only_current : MasterKeyring → MasterKeyring
only_current keyring = record { current = keyring.current; all = keyring.current ∷ [] }

pub only_current-IsKeyring : (keyring : MasterKeyring) → IsKeyring (only_current keyring)
unfolding candidates select
only_current-IsKeyring keyring = by_id keyring.current.id refl
  where
    by_id :
        (id : Text)
        → keyring.current.id ≡ id
        → candidates (only_current keyring) (some id) ≡ keyring.current ∷ []
    by_id [] e = refl
    by_id (c ∷ cs) e = rw (e, same_refl (c ∷ cs)) refl

All-keep_new {κ} :
    (P : MasterKey → Type κ) (k : MasterKey) (o : Option MasterKey) (rest : List MasterKey)
    → (o ≡ none → P k)
    → All P rest
    → All P (keep_new k o rest)
All-keep_new P k none rest h later = (h refl, later)
All-keep_new P k (some earlier) rest h later = later

unseen :
    (seen ks : List MasterKey) → All (λ k. find (has_id k.id) seen ≡ none) (unique_keys seen ks)
unfolding unique_keys find
unseen seen [] = tt
unseen seen (k ∷ ks) =
    All-keep_new _ k (find (has_id k.id) seen) (unique_keys (k ∷ seen) ks) (λ new. new)
      (All-weaken _ _ (unique_keys (k ∷ seen) ks) (λ x h. ground (arith, h)) (unseen (k ∷ seen) ks))

head-chosen :
    (k : MasterKey) (ks : List MasterKey)
    → All (λ x. find (has_id x.id) (k ∷ []) ≡ none) ks
    → select (has_id k.id) (k ∷ ks) ≡ k ∷ []
unfolding select find
head-chosen k ks h =
    rw
      (
        same_refl k.id,
        select-none (has_id k.id) ks
            (All-weaken _ _ ks (λ x p. ground (arith, same_sym x.id k.id, p)) h),
      )
      refl

candidates-some :
    (keyring : MasterKeyring) (id : Text)
    → id ≢ []
    → candidates keyring (some id) ≡ select (has_id id) keyring.all
unfolding candidates
candidates-some keyring [] named = absurd (named refl)
candidates-some keyring (c ∷ cs) named = refl

keyring_of-IsKeyring :
    (ks : List MasterKey) (keyring : MasterKeyring)
    → keyring_of (unique_keys [] ks) ≡ some keyring
    → keyring.current.id ≢ []
    → IsKeyring keyring
unfolding unique_keys find
keyring_of-IsKeyring [] keyring h named = cc h
keyring_of-IsKeyring (k ∷ ks) keyring h named =
    let rest = unique_keys (k ∷ []) ks in
    let built : MasterKeyring = record { current = k; all = k ∷ rest } in
    let same_keyring : built ≡ keyring = cc h in
    let named' = subst (λ (r : MasterKeyring). r.current.id ≢ []) (sym same_keyring) named in
    subst IsKeyring same_keyring
      (candidates-some built k.id named' ∙ head-chosen k rest (unseen (k ∷ []) ks))

-- `buildMasterKeyring` makes a keyring in which the id of the current key, if it is not empty, names
-- no other key.
pub build_master_keyring-IsKeyring :
    (w : WebCrypto) (current : Text) (previous : Option Text) (keyring : MasterKeyring)
    → build_master_keyring w current previous ≡ some keyring
    → keyring.current.id ≢ []
    → IsKeyring keyring
unfolding build_master_keyring
build_master_keyring-IsKeyring w current previous keyring h named =
    keyring_of-IsKeyring _ keyring h named
