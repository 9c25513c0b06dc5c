-- ===== src/Secrets/Sealed.antt =====
-- A value that was sealed with the current key is opened again.
use kody_celld.Prelude.{ℕ, Option, none, some, List, [], ◌∷◌, Text, ◌≡◌, ap, ◌∙◌, All}
use kody_celld.Act.{Result, ok, err}
use kody_celld.Crypto.Hex.{IsByte}
use kody_celld.Crypto.Keyring.{
  WebCrypto, IsWebCrypto, KeepsText, KeyError, EncryptedValue, MasterKeyring, encrypt_secret_value,
  decrypt_secret_value, decrypt_with_keyring, decrypt_with, try_keys, or_next, undecryptable,
  candidates, decrypt-encrypt,
}
use kody_celld.Crypto.Built.{IsKeyring}
use kody_celld.Secrets.Defs.{SecretRow}
use kody_celld.Secrets.Resolve.{
  SecretRef, Resolved, value_of, find_secret, resolve_one, resolve_text, secret_resolve_values,
}

-- A value that was sealed with the current key opens.
pub sealed-opens :
    (w : WebCrypto) (keyring : MasterKeyring) (iv : List ℕ) (user_id plaintext : Text)
    (v : EncryptedValue)
    → IsWebCrypto w
    → KeepsText w plaintext
    → All IsByte iv
    → IsKeyring keyring
    → v.iv ≡ (encrypt_secret_value w iv keyring.current.key user_id plaintext).iv
    → v.ciphertext ≡ (encrypt_secret_value w iv keyring.current.key user_id plaintext).ciphertext
    → v.key_id ≡ some keyring.current.id
    → decrypt_with_keyring w keyring user_id v ≡ ok plaintext
unfolding decrypt_with_keyring try_keys decrypt_secret_value
sealed-opens w keyring iv user_id plaintext v good kept bytes one same_iv same_text same_id =
    let k = keyring.current in
    let opened : decrypt_secret_value w k.key user_id v ≡ some plaintext =
      (λ i.
        decrypt_secret_value w k.key user_id
          (record { iv = same_iv i; ciphertext = same_text i; key_id = none }))
      ∙ decrypt-encrypt w iv k.key user_id plaintext good kept bytes in
    ap (λ ks. decrypt_with w ks user_id v) (ap (candidates keyring) same_id ∙ one)
    ∙ ap (λ o. or_next o (err undecryptable)) opened

-- A row that holds the sealed value.
abbrev pub Holds : EncryptedValue → (key_id : Text) → SecretRow → Type 0
Holds sealed key_id row =
    (row.iv ≡ sealed.iv) × (row.ciphertext ≡ sealed.ciphertext) × (row.key_id ≡ key_id)

-- A row that holds the sealed value is resolved to its text.
pub resolve-sealed :
    (w : WebCrypto) (keyring : MasterKeyring) (user_id : Text) (iv : List ℕ) (text : Text)
    (ref : SecretRef) (package_name : Option Text) (rows : List SecretRow) (row : SecretRow)
    → IsWebCrypto w
    → KeepsText w text
    → All IsByte iv
    → IsKeyring keyring
    → find_secret ref package_name rows ≡ some row
    → Holds (encrypt_secret_value w iv keyring.current.key user_id text) keyring.current.id row
    → secret_resolve_values w keyring user_id (ref ∷ []) package_name rows
      ≡ ok (record { values = (ref.name, text) ∷ []; missing = [] })
unfolding secret_resolve_values resolve_one
resolve-sealed w keyring user_id iv text ref package_name rows row good kept bytes one found
      (a, b, c) =
    let nothing : Result KeyError Resolved = ok (record { values = []; missing = [] }) in
    ap (λ o. resolve_one w keyring user_id ref.name o nothing) found
    ∙ ap (λ t. resolve_text ref.name t nothing)
        (sealed-opens w keyring iv user_id text (value_of row) good kept bytes one a b (ap some c))
