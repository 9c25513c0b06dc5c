-- ===== src/Tests/ProviderTable.antt =====
-- Providers of secrets on concrete inputs.
use kody_celld.Prelude.{true, false, ◌≡◌, refl, none, some, [], ◌∷◌, Text, codes, same}
use kody_celld.Table.{find, delete, update, exists}
use kody_celld.Act.{ok, err}
use kody_celld.Secrets.Defs.{SecretRow, user_scope}
use kody_celld.Providers.Defs.{Binding, SavedPackage, ProviderCell, cache_key}
use kody_celld.Providers.Store.{BindInput, bind, get_binding}
use kody_celld.Providers.Cell.{
  not_granted, authorized, secret_provider_authorize, secret_provider_bind, package_saved,
}
use kody_celld.Providers.Unbound.{IsSound}
use kody_celld.Providers.Runs.{
  Reach, start, next, save_package, write_secrets, empty_cell, bound_by_saved,
}
use kody_celld.Providers.Runs
use kody_celld.Providers.Rebound.{rebound}

abbrev door : SecretRow
door = record {
  name = codes "door";
  scope = user_scope;
  package_name = [];
  description = none;
  iv = [];
  ciphertext = [];
  key_id = [];
  created_at = 1;
  updated_at = 1;
}

abbrev vault_package : (name : Text) → SavedPackage
vault_package name = record {
  name = name;
  secret_provider = some (record { id = codes "op"; entry = codes "e" });
}

abbrev input : BindInput
input = record {
  provider_id = codes "op";
  package_name = codes "new";
  door_secret_name = codes "door";
  config = [];
  locked = none;
}

abbrev saved_cell : ProviderCell
saved_cell = record (package_saved (vault_package (codes "new")) empty_cell) { secrets = door ∷ [] }

bound_by_saved_example : IsSound (secret_provider_bind input 5 saved_cell).1
bound_by_saved_example = bound_by_saved (
    next
      (next (next start (save_package empty_cell (vault_package (codes "new"))))
        (write_secrets (package_saved (vault_package (codes "new")) empty_cell) (door ∷ [])))
      (Runs.bind saved_cell input 5))

-- The binding is made.
bind_binds :
    (secret_provider_bind input 5 saved_cell).0
    ≡ ok (
        some (record {
          provider_id = codes "op";
          package_name = codes "new";
          door_secret_name = codes "door";
          config = [];
          locked = false;
          created_at = 5;
          updated_at = 5;
        }))
unfolding secret_provider_bind package_saved find exists same delete update
bind_binds = refl

abbrev old_binding : Binding
old_binding = record {
  provider_id = codes "op";
  package_name = codes "old";
  door_secret_name = codes "door";
  config = [];
  locked = true;
  created_at = 1;
  updated_at = 1;
}

-- A package holds a grant for an item of the old binding, whose value is cached.
abbrev granted_cell : ProviderCell
granted_cell = record {
  packages = vault_package (codes "new") ∷ [];
  secrets = door ∷ [];
  bindings = old_binding ∷ [];
  grants =
      record {
        provider_id = codes "op";
        canonical_ref = codes "item";
        package_name = codes "p";
        created_at = 2;
      }
      ∷ [];
  cache =
      (
        cache_key (codes "op") (codes "item"),
        record { value = codes "v"; hosts = []; canonical_ref = codes "item"; expires_at = 100 },
      )
      ∷ [];
}

was_granted :
    (secret_provider_authorize
      (codes "op")
      (codes "item")
      (some (codes "p"))
      false
      6
      granted_cell).0
    ≡ ok (
        authorized old_binding
          (some (record {
            value = codes "v";
            hosts = [];
            canonical_ref = codes "item";
            expires_at = 100;
          }))
          false)
unfolding secret_provider_authorize find exists same
was_granted = refl

bound_before : get_binding (codes "op") granted_cell ≡ some old_binding
unfolding get_binding find same
bound_before = refl

rebound_example :
    (secret_provider_authorize
      (codes "op")
      (codes "item")
      (some (codes "p"))
      false
      6
      (bind input 5 granted_cell)).0
    ≡ err not_granted
unfolding same
rebound_example =
    rebound input old_binding 5 granted_cell bound_before 6 (codes "item") (some (codes "p")) false
      refl
