-- ===== src/Secrets/Resolve.antt =====
-- `secretResolveValues`.
use kody_celld.Prelude.{
  Bool, true, false, ◌&&◌, Option, none, some, List, [], ◌∷◌, ◌++◌, Text, same,
}
use kody_celld.Table.{find, select}
use kody_celld.Act.{Result, ok, err}
use kody_celld.Crypto.Keyring.{
  WebCrypto, EncryptedValue, MasterKeyring, KeyError, decrypt_with_keyring,
}
use kody_celld.Secrets.Defs.{
  SecretScope, user_scope, package_scope, session_scope, same_scope, SecretRow,
}

pub record SecretRef : Type 0 where
  pub name : Text
  pub scope : Option SecretScope

-- `values` is an object: the entry that was set last stands in front and is the one that counts.
pub record Resolved : Type 0 where
  pub values : List (Text × Text)
  pub missing : List Text

abbrev pub value_of : SecretRow → EncryptedValue
value_of row = record { iv = row.iv; ciphertext = row.ciphertext; key_id = some row.key_id }

abbrev pub scope_fits : Option SecretScope → SecretScope → Bool
scope_fits none scope = true
scope_fits (some wanted) scope = same_scope scope wanted

abbrev pub is_own_package : Option Text → Text → Bool
is_own_package none name = false
is_own_package (some own) name = same name own

-- A secret of a package is for the runs of that package only.
abbrev pub sees : (package_name : Option Text) → SecretScope → Text → Bool
sees package_name package_scope name = is_own_package package_name name
sees package_name user_scope name = true
sees package_name session_scope name = true

abbrev pub may_see : (package_name : Option Text) → SecretRow → Bool
may_see package_name row = sees package_name row.scope row.package_name

abbrev pub is_match : SecretRef → (package_name : Option Text) → SecretRow → Bool
is_match ref package_name row = scope_fits ref.scope row.scope && may_see package_name row

-- `candidates.find(…)` among the rows of the name
unfoldable pub find_secret :
    SecretRef → (package_name : Option Text) → List SecretRow → Option SecretRow
find_secret ref package_name rows =
    find (is_match ref package_name) (select (λ r. same r.name ref.name) rows)

abbrev pub add_value : Text → Text → Result KeyError Resolved → Result KeyError Resolved
add_value name text (ok r) = ok (record r { values = r.values ++ (name, text) ∷ [] })
add_value name text (err e) = err e

abbrev pub add_missing : Text → Result KeyError Resolved → Result KeyError Resolved
add_missing name (ok r) = ok (record r { missing = name ∷ r.missing })
add_missing name (err e) = err e

abbrev pub resolve_text :
    Text → Result KeyError Text → Result KeyError Resolved → Result KeyError Resolved
resolve_text name (err e) rest = err e
resolve_text name (ok text) rest = add_value name text rest

module _ (w : WebCrypto) (keyring : MasterKeyring) (user_id : Text) where
  -- One round for a name, where `rest` is what the later rounds make.
  unfoldable pub resolve_one :
      Text → Option SecretRow → Result KeyError Resolved → Result KeyError Resolved
  resolve_one name none rest = add_missing name rest
  resolve_one name (some row) rest =
      resolve_text name (decrypt_with_keyring w keyring user_id (value_of row)) rest

  unfoldable pub secret_resolve_values :
      List SecretRef → (package_name : Option Text) → List SecretRow → Result KeyError Resolved
  unfolding find_secret resolve_one
  secret_resolve_values [] package_name rows = ok (record { values = []; missing = [] })
  secret_resolve_values (ref ∷ refs) package_name rows =
      resolve_one ref.name (find_secret ref package_name rows)
        (secret_resolve_values refs package_name rows)
