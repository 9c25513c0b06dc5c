-- ===== src/Tests/SecretTable.antt =====
-- Sealed secrets on concrete inputs, with a cipher that keeps the bytes readable.
use kody_celld.Prelude.{
  ne_of_same, ℕ, zero, suc, ◌+◌, ◌≡◌, refl, ap, ◌∙◌, arith, none, some, List, [], ◌∷◌, Text, codes,
  All, same, ◌++◌,
}
use kody_celld.Table.{find, select, update, exists}
use kody_celld.Act.{ok}
use kody_celld.Crypto.Hex.{IsByte, bytes_to_hex, hex_to_bytes}
use kody_celld.Crypto.Keyring.{
  WebCrypto, IsWebCrypto, MasterKey, MasterKeyring, encrypt_secret_value, decrypt_secret_value,
  decrypt_with_keyring, candidates, try_keys,
}
use kody_celld.Crypto.Built.{IsKeyring, only_current}
use kody_celld.Secrets.Defs.{SecretKey, SecretRow, user_scope, has_key}
use kody_celld.Secrets.Save.{SaveInput, secret_save, secret_name_pattern}
use kody_celld.Secrets.Resolve.{secret_resolve_values, value_of}
use kody_celld.Secrets.Isolation.{IsForeign, package_isolated}
use kody_celld.Secrets.Saved.{save_resolves}
use kody_celld.Table.{delete}
use kody_celld.Prelude.{Bool, true, same→eq, ◌&&◌, none}
use kody_celld.Secrets.Defs.{SecretScope, session_scope, same_scope, package_scope}
use kody_celld.Secrets.Rekey.{secret_rekey}
use kody_celld.Secrets.Rekeyed.{rekey_keeps_values}

-- Each number as so many ones and a zero.
unfoldable unary : ℕ → List ℕ → List ℕ
unary zero rest = 0 ∷ rest
unary (suc n) rest = 1 ∷ unary n rest

unfoldable cipher : List ℕ → List ℕ
unfolding unary
cipher [] = []
cipher (n ∷ ns) = unary n (cipher ns)

unfoldable decipher : ℕ → List ℕ → List ℕ
decipher n [] = []
decipher n (zero ∷ rest) = n ∷ decipher 0 rest
decipher n (suc m ∷ rest) = decipher (suc n) rest

decipher-unary : (k n : ℕ) (rest : List ℕ) → decipher k (unary n rest) ≡ (k + n) ∷ decipher 0 rest
unfolding decipher unary
decipher-unary k zero rest = ap (λ m. m ∷ decipher 0 rest) (omega arith)
decipher-unary k (suc n) rest =
    decipher-unary (suc k) n rest ∙ ap (λ m. m ∷ decipher 0 rest) (omega arith)

decipher-cipher : (ns : List ℕ) → decipher 0 (cipher ns) ≡ ns
unfolding decipher cipher
decipher-cipher [] = refl
decipher-cipher (n ∷ ns) =
    decipher-unary 0 n (cipher ns)
    ∙ ap (λ m. m ∷ decipher 0 (cipher ns)) (omega arith)
    ∙ ap (λ t. n ∷ t) (decipher-cipher ns)

unary-IsByte : (n : ℕ) (rest : List ℕ) → All IsByte rest → All IsByte (unary n rest)
unfolding unary
unary-IsByte zero rest h = (omega arith, h)
unary-IsByte (suc n) rest h = (omega arith, unary-IsByte n rest h)

cipher-IsByte : (ns : List ℕ) → All IsByte (cipher ns)
unfolding cipher
cipher-IsByte [] = tt
cipher-IsByte (n ∷ ns) = unary-IsByte n (cipher ns) (cipher-IsByte ns)

abbrev platform : WebCrypto
platform = record {
  sha256_hex = λ t. t;
  derive_key = λ k u. k ++ u;
  aes_encrypt = λ key iv bytes. cipher bytes;
  aes_decrypt = λ key iv bytes. some (decipher 0 bytes);
  encode = λ t. t;
  decode = λ t. t;
  trim = λ t. t;
}

platform-IsWebCrypto : IsWebCrypto platform
platform-IsWebCrypto = record {
  decrypts = λ key iv bytes. ap some (decipher-cipher bytes);
  ciphers = λ key iv bytes. cipher-IsByte bytes;
}

abbrev keyring : MasterKeyring
keyring = record {
  current = record { id = codes "k2"; key = codes "new" };
  all =
      record { id = codes "k2"; key = codes "new" }
      ∷ record { id = codes "k1"; key = codes "old" }
      ∷ [];
}

ring_good : IsKeyring keyring
unfolding candidates select same
ring_good = refl

abbrev input : SaveInput
input = record {
  name = codes "token";
  value = codes "v";
  scope = none;
  package_name = none;
  description = none;
}

abbrev sealed_at : ℕ → MasterKey → Text → Text → SecretRow
sealed_at now k name value = record {
  name = name;
  scope = user_scope;
  package_name = [];
  description = none;
  iv = (encrypt_secret_value platform (7 ∷ []) k.key (codes "u1") value).iv;
  ciphertext = (encrypt_secret_value platform (7 ∷ []) k.key (codes "u1") value).ciphertext;
  key_id = k.id;
  created_at = now;
  updated_at = now;
}

abbrev old_row : SecretRow
old_row = sealed_at 3 (record { id = codes "k1"; key = codes "old" }) (codes "a") (codes "x")

abbrev new_row : SecretRow
new_row = sealed_at 4 keyring.current (codes "b") (codes "y")

save_resolves_example :
    secret_resolve_values platform keyring
      (codes "u1")
      (record { name = codes "token"; scope = some user_scope } ∷ [])
      none
      (secret_save platform keyring 2 (codes "u1") (7 ∷ []) 9 input (old_row ∷ [])).1
    ≡ ok (record { values = (codes "token", codes "v") ∷ []; missing = [] })
unfolding secret_save same exists find update secret_name_pattern
save_resolves_example =
    save_resolves platform keyring 2 (codes "u1") (7 ∷ []) 9 input (old_row ∷ [])
      (sealed_at 9 keyring.current (codes "token") (codes "v")) platform-IsWebCrypto refl
      (omega arith, tt) ring_good (refl, tt) refl

rekey_keeps_values_example :
    (row' : SecretRow) × (find
        (has_key (record { name = codes "a"; scope = user_scope; package_name = [] }))
        (secret_rekey platform keyring (codes "u1") (λ n. 7 ∷ []) (new_row ∷ old_row ∷ [])).1
      ≡ some row')
    × (decrypt_with_keyring platform (only_current keyring) (codes "u1") (value_of row')
        ≡ ok (codes "x"))
unfolding find same decrypt_with_keyring try_keys candidates select bytes_to_hex hex_to_bytes cipher
    decipher decrypt_secret_value encrypt_secret_value
rekey_keeps_values_example =
    rekey_keeps_values platform keyring (codes "u1") (λ n. 7 ∷ [])
      (record { name = codes "a"; scope = user_scope; package_name = [] }) (new_row ∷ old_row ∷ [])
      old_row (codes "x") platform-IsWebCrypto refl (λ n. (omega arith, tt)) ring_good
      (
        ((λ e. ne_of_same (codes "b") (codes "a") refl (ap (λ (q : SecretKey). q.name) e)), tt),
        (tt, tt),
      )
      refl refl

abbrev of_q : SecretRow → Bool
of_q r = same_scope r.scope package_scope && same r.package_name (codes "q")

of_q-IsForeign : (r : SecretRow) → of_q r ≡ true → IsForeign (some (codes "p")) r
unfolding same
of_q-IsForeign r h = (
  package-scope r.scope (ground (arith, h)),
  λ e.
      let named : r.package_name ≡ codes "q" =
        same→eq r.package_name (codes "q") (ground (arith, h)) in
      ne_of_same (codes "p") (codes "q") refl (ground (arith, e, named)),
)
  where
    package-scope : (x : SecretScope) → same_scope x package_scope ≡ true → x ≡ package_scope
    package-scope package_scope k = refl
    package-scope user_scope k = absurd (cc k)
    package-scope session_scope k = absurd (cc k)

abbrev two_packages : List SecretRow
two_packages = record new_row { scope = package_scope; package_name = codes "q" } ∷ new_row ∷ []

package_isolated_example :
    secret_resolve_values platform keyring
      (codes "u1")
      (record { name = codes "b"; scope = none } ∷ [])
      (some (codes "p"))
      (delete of_q two_packages)
    ≡ secret_resolve_values platform keyring
        (codes "u1")
        (record { name = codes "b"; scope = none } ∷ [])
        (some (codes "p"))
        two_packages
package_isolated_example =
    package_isolated platform keyring (codes "u1") (record { name = codes "b"; scope = none } ∷ [])
      (some (codes "p")) two_packages of_q of_q-IsForeign
