-- ===== src/Secrets/Isolation.antt =====
-- A run sees no secret of another package.
use kody_celld.Prelude.{
  Bool, true, false, Option, List, [], ◌∷◌, Text, same, some, none, ◌≡◌, ◌≢◌, refl, ap, sym, arith,
  same_of_ne, Bool-cases, inl, inr,
}
use kody_celld.Table.{find, select, delete}
use kody_celld.Crypto.Keyring.{WebCrypto, MasterKeyring}
use kody_celld.Secrets.Defs.{SecretRow, SecretScope, package_scope}
use kody_celld.Secrets.Resolve.{SecretRef, is_match, sees, find_secret, secret_resolve_values}

find-select-delete :
    (test by_name gone : SecretRow → Bool) (rows : List SecretRow)
    → ((r : SecretRow) → test r ≡ true → gone r ≡ false)
    → find test (select by_name (delete gone rows)) ≡ find test (select by_name rows)
unfolding find select delete
find-select-delete test by_name gone [] h = refl
find-select-delete test by_name gone (r ∷ rows) h =
    ground (arith, find-select-delete test by_name gone rows h, h r)

-- A secret of another package than that of the run.
abbrev pub IsForeign : (package_name : Option Text) → SecretRow → Type 0
IsForeign package_name r = (r.scope ≡ package_scope) × (package_name ≢ some r.package_name)

foreign-unseen :
    (package_name : Option Text) (scope : SecretScope) (name : Text)
    → scope ≡ package_scope
    → package_name ≢ some name
    → sees package_name scope name ≡ false
foreign-unseen none scope name e other = rw e refl
foreign-unseen (some own) scope name e other =
    rw e (same_of_ne name own (λ same_name. other (ap some (sym same_name))))

match-kept :
    (gone : SecretRow → Bool) (ref : SecretRef) (package_name : Option Text)
    → ((r : SecretRow) → gone r ≡ true → IsForeign package_name r)
    → (r : SecretRow) → is_match ref package_name r ≡ true
    → gone r ≡ false
match-kept gone ref package_name foreign r h = elim (Bool-cases (gone r)) [
  | inr f ↦ f
  | inl t ↦
      let (scope, other) = foreign r t in
      let unseen = foreign-unseen package_name r.scope r.package_name scope other in
      absurd (ground (arith, h, unseen))
]

-- Secrets of other packages have no influence on what a run resolves: on its values, on the names
-- that it misses, or on whether it fails. It is the same in the table from which any of them are
-- taken away.
pub package_isolated :
    (w : WebCrypto) (keyring : MasterKeyring) (user_id : Text) (refs : List SecretRef)
    (package_name : Option Text) (rows : List SecretRow) (gone : SecretRow → Bool)
    → ((r : SecretRow) → gone r ≡ true → IsForeign package_name r)
    → secret_resolve_values w keyring user_id refs package_name (delete gone rows)
      ≡ secret_resolve_values w keyring user_id refs package_name rows
unfolding secret_resolve_values find_secret
package_isolated w keyring user_id [] package_name rows gone foreign = refl
package_isolated w keyring user_id (ref ∷ refs) package_name rows gone foreign =
    rw
      (
        find-select-delete (is_match ref package_name) (λ r. same r.name ref.name) gone rows
            (match-kept gone ref package_name foreign),
        package_isolated w keyring user_id refs package_name rows gone foreign,
      )
      refl
