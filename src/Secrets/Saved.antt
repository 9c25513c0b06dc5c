-- ===== src/Secrets/Saved.antt =====
-- What `secretSave` wrote, `secretResolveValues` reads.
use kody_celld.Prelude.{
  ℕ, Bool, true, false, not, ◌&&◌, Option, none, some, List, [], ◌∷◌, Text, same, same_refl, ◌≡◌,
  refl, sym, ap, ◌∙◌, arith, All, inl, inr, Bool-cases, length, subst,
}
use kody_celld.Table.{find, select, update, exists, changed}
use kody_celld.Table.Laws.{All-update, find-update-some, test-find, find_of_exists}
use kody_celld.Act.{ok, Result-cases}
use kody_celld.Crypto.Hex.{IsByte}
use kody_celld.Crypto.Keyring.{
  WebCrypto, IsWebCrypto, KeepsText, EncryptedValue, MasterKeyring, encrypt_secret_value,
}
use kody_celld.Crypto.Built.{IsKeyring}
use kody_celld.Limits.Defs.{within_quota}
use kody_celld.Secrets.Defs.{
  SecretScope, user_scope, package_scope, session_scope, same_scope, SecretRow, SecretKey, has_key,
}
use kody_celld.Secrets.Save.{
  SaveInput, scope_or_user, package_of, lacks_package, coalesce, reseal, new_secret, write_secret,
  check_save, save_checked, secret_save,
}
use kody_celld.Secrets.Resolve.{scope_fits, sees, find_secret, secret_resolve_values}
use kody_celld.Secrets.Sealed.{Holds, resolve-sealed}
use kody_celld.Secrets.Keyed.{same_scope_refl}

-- Only a secret of a package has a package's name.
abbrev pub is_filed : SecretScope → Text → Bool
is_filed package_scope name = true
is_filed user_scope name = same name []
is_filed session_scope name = same name []

abbrev pub IsFiled : List SecretRow → Type 0
IsFiled rows = All (λ r. is_filed r.scope r.package_name ≡ true) rows

fits-key :
    (wanted scope : SecretScope) (package_name : Option Text) (name : Text)
    → lacks_package wanted (package_of wanted package_name) ≡ false
    → is_filed scope name ≡ true
    → (scope_fits (some wanted) scope && sees package_name scope name)
      ≡ (same_scope scope wanted && same name (package_of wanted package_name))
fits-key user_scope user_scope package_name name h f = sym f
fits-key user_scope package_scope package_name name h f = refl
fits-key user_scope session_scope package_name name h f = refl
fits-key package_scope user_scope package_name name h f = refl
fits-key package_scope package_scope none name h f = cc h
fits-key package_scope package_scope (some p) name h f = refl
fits-key package_scope session_scope package_name name h f = refl
fits-key session_scope user_scope package_name name h f = refl
fits-key session_scope package_scope package_name name h f = refl
fits-key session_scope session_scope package_name name h f = sym f

-- In a table that is filed, a lookup for a name and a scope is the lookup of the key.
find-key :
    (name : Text) (wanted : SecretScope) (package_name : Option Text) (rows : List SecretRow)
    → lacks_package wanted (package_of wanted package_name) ≡ false
    → IsFiled rows
    → find_secret (record { name = name; scope = some wanted }) package_name rows
      ≡ find
          (has_key
            (record { name = name; scope = wanted; package_name = package_of wanted package_name }))
          rows
unfolding find_secret find select
find-key name wanted package_name [] h filed = refl
find-key name wanted package_name (r ∷ rows) h filed = ground (
  arith,
  fits-key wanted r.scope package_name r.package_name h filed.0,
  find-key name wanted package_name rows h filed.1,
)

module _ (k : SecretKey) (description : Option Text) (sealed : EncryptedValue) (key_id : Text)
    (now : ℕ) where
  abbrev rewrite : SecretRow → SecretRow
  rewrite r = record (reseal sealed key_id r) {
    description = coalesce description r.description;
    updated_at = now;
  }

  rewrite_blind : (x : SecretRow) → has_key k (changed (has_key k) rewrite x) ≡ has_key k x
  unfolding reseal
  rewrite_blind x = elim (Bool-cases (has_key k x)) [ inl t ↦ rw t t | inr f ↦ rw f f ]

  find-updated :
      (rows : List SecretRow) (row : SecretRow)
      → find (has_key k) rows ≡ some row
      → find (has_key k) (update (has_key k) rewrite rows) ≡ some (rewrite row)
  find-updated rows row found =
      find-update-some (has_key k) (has_key k) rewrite rows row rewrite_blind found
      ∙ ap some (rw (test-find (has_key k) rows row found) refl)

  find-write_secret :
      (rows : List SecretRow)
      → (row : SecretRow) × (find (has_key k) (write_secret k description sealed key_id now rows)
          ≡ some row)
        × Holds sealed key_id row
  unfolding write_secret find reseal
  find-write_secret rows = elim (Bool-cases (exists (has_key k) rows)) [
    | inl old ↦
        let (row, found) = find_of_exists (has_key k) rows old in
        (rewrite row, rw old (find-updated rows row found), (refl, refl, refl))
    | inr new ↦ (
      new_secret k description sealed key_id now,
      rw (new, same_refl k.name, same_scope_refl k.scope, same_refl k.package_name) refl,
      (refl, refl, refl),
    )
  ]

  write_secret-IsFiled :
      (rows : List SecretRow)
      → is_filed k.scope k.package_name ≡ true
      → IsFiled rows
      → IsFiled (write_secret k description sealed key_id now rows)
  unfolding write_secret reseal
  write_secret-IsFiled rows new filed = elim (Bool-cases (exists (has_key k) rows)) [
    | inl old ↦ rw old (
        All-update _ (has_key k) rewrite rows
          (λ r h. elim (Bool-cases (has_key k r)) [ inl t ↦ rw t h | inr f ↦ rw f h ]) filed)
    | inr absent ↦ rw absent (new, filed)
  ]

filed-package_of :
    (scope : SecretScope) (package_name : Option Text)
    → is_filed scope (package_of scope package_name) ≡ true
unfolding same
filed-package_of user_scope name = refl
filed-package_of session_scope name = refl
filed-package_of package_scope name = refl

abbrev named_key : (trim : Text → Text) → SaveInput → SecretKey
named_key trim input = record {
  name = trim input.name;
  scope = scope_or_user input.scope;
  package_name = package_of (scope_or_user input.scope) input.package_name;
}

check_save-key :
    (trim : Text → Text) (input : SaveInput) (k : SecretKey)
    → check_save trim input ≡ ok k
    → (named_key trim input ≡ k)
      × (lacks_package (named_key trim input).scope (named_key trim input).package_name ≡ false)
unfolding check_save
check_save-key trim input k h = (ground (arith, h), ground (arith, h))

save_checked-writes :
    (w : WebCrypto) (keyring : MasterKeyring) (limit : ℕ) (user_id : Text) (iv : List ℕ) (now : ℕ)
    (input : SaveInput) (k : SecretKey) (rows : List SecretRow) (saved : SecretRow)
    → (save_checked w keyring limit user_id iv now input (ok k) rows).0 ≡ ok saved
    → (save_checked w keyring limit user_id iv now input (ok k) rows).1
      ≡ write_secret k input.description
          (encrypt_secret_value w iv keyring.current.key user_id input.value)
          keyring.current.id
          now
          rows
unfolding save_checked
save_checked-writes w keyring limit user_id iv now input k rows saved h =
    elim (Bool-cases (not (exists (has_key k) rows) && not (within_quota limit (length rows)))) [
      | inl full ↦ absurd (cc (rw (full, save_checked) at h))
      | inr room ↦ rw (room, save_checked) refl
    ]

-- A secret that a call saved is resolved to its value, by a run that asks for its name and scope, of
-- the package for which it was saved. The platform's AES-GCM works as documented, UTF-8 keeps the
-- value, the id of the current key names no other, and in the table only secrets of packages have a package's name.
pub save_resolves :
    (w : WebCrypto) (keyring : MasterKeyring) (limit : ℕ) (user_id : Text) (iv : List ℕ) (now : ℕ)
    (input : SaveInput) (rows : List SecretRow) (saved : SecretRow)
    → IsWebCrypto w
    → KeepsText w input.value
    → All IsByte iv
    → IsKeyring keyring
    → IsFiled rows
    → (secret_save w keyring limit user_id iv now input rows).0 ≡ ok saved
    → secret_resolve_values w keyring user_id
        (record { name = w.trim input.name; scope = some (scope_or_user input.scope) } ∷ [])
        input.package_name
        (secret_save w keyring limit user_id iv now input rows).1
      ≡ ok (record { values = (w.trim input.name, input.value) ∷ []; missing = [] })
unfolding secret_save
save_resolves w keyring limit user_id iv now input rows saved good kept bytes one filed h =
    elim (Result-cases (check_save w.trim input)) [
      | inl (k, checked) ↦
          let (same_key, has_package) = check_save-key w.trim input k checked in
          let sealed = encrypt_secret_value w iv keyring.current.key user_id input.value in
          let written = write_secret k input.description sealed keyring.current.id now rows in
          let after : (secret_save w keyring limit user_id iv now input rows).1 ≡ written =
            rw (checked) (
              save_checked-writes w keyring limit user_id iv now input k rows saved
                (rw (checked) at h)) in
          let (row, found, holds) =
            find-write_secret k input.description sealed keyring.current.id now rows in
          let still_filed =
            write_secret-IsFiled k input.description sealed keyring.current.id now rows
              (subst (λ (q : SecretKey). is_filed q.scope q.package_name ≡ true) same_key
                (filed-package_of (scope_or_user input.scope) input.package_name))
              filed in
          let located =
            find-key (w.trim input.name) (scope_or_user input.scope) input.package_name written
              has_package still_filed
            ∙ ap (λ q. find (has_key q) written) same_key
            ∙ found in
          rw after (
            resolve-sealed w keyring user_id iv input.value _ input.package_name written row good
              kept bytes one located holds)
      | inr (e, refused) ↦ absurd (cc (rw (refused, save_checked) at h))
    ]
