-- ===== src/Secrets/Defs.antt =====
-- The table `secrets`.
use kody_celld.Prelude.{ℕ, Bool, true, false, ◌&&◌, Option, Text, same}

pub data SecretScope : Type 0 where
  user_scope package_scope session_scope : SecretScope

abbrev pub same_scope : SecretScope → SecretScope → Bool
same_scope user_scope user_scope = true
same_scope package_scope package_scope = true
same_scope session_scope session_scope = true
same_scope _ _ = false

-- `key_id` is empty in rows that are older than the column.
pub record SecretRow : Type 0 where
  pub name : Text
  pub scope : SecretScope
  pub package_name : Text
  pub description : Option Text
  pub iv : Text
  pub ciphertext : Text
  pub key_id : Text
  pub created_at : ℕ
  pub updated_at : ℕ

pub data Error : Type 0 where
  invalid_secret_name invalid_secret_value invalid_secret_scope quota_exceeded internal_error :
      Error

-- PRIMARY KEY (name, scope, package_name)
pub record SecretKey : Type 0 where
  pub name : Text
  pub scope : SecretScope
  pub package_name : Text

abbrev pub has_key : SecretKey → SecretRow → Bool
has_key k row =
    same row.name k.name && (same_scope row.scope k.scope && same row.package_name k.package_name)

abbrev pub key_of : SecretRow → SecretKey
key_of row = record { name = row.name; scope = row.scope; package_name = row.package_name }
