-- ===== src/Secrets/Save.antt =====
-- `secretSave` and `secretDelete`.
use kody_celld.Prelude.{
  between, ℕ, ◌*◌, Bool, true, false, not, ◌&&◌, ◌||◌, Option, none, some, List, [], ◌∷◌, Text, ltb,
  ◌==◌, length, if◌then◌else◌,
}
use kody_celld.Table.{find, delete, update, exists}
use kody_celld.Act.{Act, Result, ok, err}
use kody_celld.Crypto.Keyring.{WebCrypto, EncryptedValue, MasterKeyring, encrypt_secret_value}
use kody_celld.Limits.Defs.{within_quota}
use kody_celld.Secrets.Defs.{
  SecretScope, user_scope, package_scope, session_scope, SecretRow, Error, invalid_secret_name,
  invalid_secret_value, invalid_secret_scope, quota_exceeded, internal_error, SecretKey, has_key,
}

-- `/^[a-zA-Z0-9._-]+$/`
unfoldable pub all_name_chars : Text → Bool
all_name_chars [] = true
all_name_chars (c ∷ cs) =
    (between 97 122 c || between 65 90 c || between 48 57 c || (c == 46) || (c == 95) || (c == 45))
    && all_name_chars cs

unfoldable pub secret_name_pattern : Text → Bool
unfolding all_name_chars
secret_name_pattern [] = false
secret_name_pattern (c ∷ cs) = all_name_chars (c ∷ cs)

pub record SaveInput : Type 0 where
  pub name : Text
  pub value : Text
  pub description : Option Text
  pub scope : Option SecretScope
  pub package_name : Option Text

abbrev pub scope_or_user : Option SecretScope → SecretScope
scope_or_user none = user_scope
scope_or_user (some scope) = scope

-- `scope === 'package' ? (packageName ?? '') : ''`
abbrev pub package_of : SecretScope → Option Text → Text
package_of package_scope (some name) = name
package_of package_scope none = []
package_of user_scope name = []
package_of session_scope name = []

abbrev pub lacks_package : SecretScope → Text → Bool
lacks_package package_scope [] = true
lacks_package package_scope (c ∷ cs) = false
lacks_package user_scope name = false
lacks_package session_scope name = false

-- COALESCE(excluded.description, secrets.description)
abbrev pub coalesce : Option Text → Option Text → Option Text
coalesce none old = old
coalesce (some new) old = some new

unfoldable pub reseal : EncryptedValue → (key_id : Text) → SecretRow → SecretRow
reseal sealed key_id row = record row {
  iv = sealed.iv;
  ciphertext = sealed.ciphertext;
  key_id = key_id;
}

abbrev pub new_secret :
    SecretKey → (description : Option Text) → EncryptedValue → (key_id : Text) (now : ℕ) → SecretRow
new_secret k description sealed key_id now = record {
  name = k.name;
  scope = k.scope;
  package_name = k.package_name;
  description = description;
  iv = sealed.iv;
  ciphertext = sealed.ciphertext;
  key_id = key_id;
  created_at = now;
  updated_at = now;
}

-- INSERT … ON CONFLICT(name, scope, package_name) DO UPDATE
unfoldable pub write_secret :
    SecretKey
    → (description : Option Text) → EncryptedValue
    → (key_id : Text) (now : ℕ) → List SecretRow
    → List SecretRow
unfolding reseal
write_secret k description sealed key_id now rows =
    if exists (has_key k) rows
    then update (has_key k)
        (λ r. record (reseal sealed key_id r) {
          description = coalesce description r.description;
          updated_at = now;
        })
        rows
    else new_secret k description sealed key_id now ∷ rows

abbrev pub found_or_fail : Option SecretRow → Result Error SecretRow
found_or_fail none = err internal_error
found_or_fail (some row) = ok row

-- The checks of the input, in their order; the key that it names.
unfoldable pub check_save : (trim : Text → Text) → SaveInput → Result Error SecretKey
unfolding secret_name_pattern
check_save trim input =
    let name = trim input.name in
    let scope = scope_or_user input.scope in
    let package_name = package_of scope input.package_name in
    if not (secret_name_pattern name)
    then err invalid_secret_name
    else if length input.value == 0
    then err invalid_secret_value
    else if ltb (64 * 1024) (length input.value)
    then err invalid_secret_value
    else if lacks_package scope package_name
    then err invalid_secret_scope
    else ok (record { name = name; scope = scope; package_name = package_name })

-- A row that is new counts against the quota; a limit of 0 is none. `iv` is drawn. The saved row is
-- looked up by its key, which in the source goes through the list of all secrets.
unfoldable pub save_checked :
    WebCrypto
    → MasterKeyring
    → (limit : ℕ) (user_id : Text) (iv : List ℕ) (now : ℕ) → SaveInput
    → Result Error SecretKey
    → Act (List SecretRow) Error SecretRow
unfolding write_secret
save_checked w keyring limit user_id iv now input (err e) rows = (err e, rows)
save_checked w keyring limit user_id iv now input (ok k) rows =
    if not (exists (has_key k) rows) && not (within_quota limit (length rows))
    then (err quota_exceeded, rows)
    else let sealed = encrypt_secret_value w iv keyring.current.key user_id input.value in
      let rows' = write_secret k input.description sealed keyring.current.id now rows in
      (found_or_fail (find (has_key k) rows'), rows')

-- `limit` is the user's quota of secrets.
unfoldable pub secret_save :
    WebCrypto
    → MasterKeyring
    → (limit : ℕ) (user_id : Text) (iv : List ℕ) (now : ℕ) → SaveInput
    → Act (List SecretRow) Error SecretRow
unfolding check_save save_checked
secret_save w keyring limit user_id iv now input rows =
    save_checked w keyring limit user_id iv now input (check_save w.trim input) rows

pub record DeleteInput : Type 0 where
  pub name : Text
  pub scope : Option SecretScope
  pub package_name : Option Text

unfoldable pub secret_delete : DeleteInput → List SecretRow → Bool × List SecretRow
secret_delete input rows =
    let scope = scope_or_user input.scope in
    let k : SecretKey = record {
      name = input.name;
      scope = scope;
      package_name = package_of scope input.package_name;
    } in
    (exists (has_key k) rows, delete (has_key k) rows)
