-- ===== src/Crypto/Keyring.antt =====
-- Sealing with the master keys: src/lib/crypto.ts.
use kody_celld.Prelude.{
  ℕ, Bool, Option, none, some, List, [], ◌∷◌, ◌++◌, map, Text, codes, same, take, split_from, ◌≡◌,
  ap, ◌∙◌, All,
}
use kody_celld.Table.{find, select}
use kody_celld.Act.{Result, ok, err}
use kody_celld.Crypto.Hex.{bytes_to_hex, hex_to_bytes, hex_to_bytes-bytes_to_hex, IsByte}

-- WebCrypto and the text coders: `derive_key` is HKDF with the salt and info of `deriveUserKey`;
-- `aes_decrypt` is `none` where AES-GCM rejects.
pub record WebCrypto : Type 0 where
  pub sha256_hex : Text → Text
  pub derive_key : (master_key user_id : Text) → List ℕ
  pub aes_encrypt : (key iv bytes : List ℕ) → List ℕ
  pub aes_decrypt : (key iv bytes : List ℕ) → Option (List ℕ)
  pub encode : Text → List ℕ
  pub decode : List ℕ → Text
  pub trim : Text → Text

-- What the documents of WebCrypto say: what AES-GCM encrypts it decrypts under the same key and iv,
-- and a ciphertext is bytes.
pub record IsWebCrypto (w : WebCrypto) : Type 0 where
  pub decrypts :
      (key iv bytes : List ℕ) → w.aes_decrypt key iv (w.aes_encrypt key iv bytes) ≡ some bytes
  pub ciphers : (key iv bytes : List ℕ) → All IsByte (w.aes_encrypt key iv bytes)

-- The text is well-formed, so that UTF-8 decodes what it encodes.
abbrev pub KeepsText : WebCrypto → Text → Type 0
KeepsText w text = w.decode (w.encode text) ≡ text

pub record EncryptedValue : Type 0 where
  pub iv : Text
  pub ciphertext : Text
  pub key_id : Option Text

pub record MasterKey : Type 0 where
  pub id : Text
  pub key : Text

pub record MasterKeyring : Type 0 where
  pub current : MasterKey
  pub all : List MasterKey

pub data KeyError : Type 0 where
  unknown_key undecryptable : KeyError

abbrev pub has_id : Text → MasterKey → Bool
has_id id k = same k.id id

-- `filter(Boolean)`
unfoldable pub non_empty_texts : List Text → List Text
non_empty_texts [] = []
non_empty_texts ([] ∷ ts) = non_empty_texts ts
non_empty_texts ((c ∷ cs) ∷ ts) = (c ∷ cs) ∷ non_empty_texts ts

abbrev pub keep_new : MasterKey → Option MasterKey → List MasterKey → List MasterKey
keep_new k none rest = k ∷ rest
keep_new k (some earlier) rest = rest

-- The first of the entries with one id stays; `seen` holds the entries in front.
unfoldable pub unique_keys : List MasterKey → List MasterKey → List MasterKey
unique_keys seen [] = []
unique_keys seen (k ∷ ks) = keep_new k (find (has_id k.id) seen) (unique_keys (k ∷ seen) ks)

abbrev pub or_next : Option Text → Result KeyError Text → Result KeyError Text
or_next (some text) rest = ok text
or_next none rest = rest

abbrev pub or_empty_text : Option Text → Text
or_empty_text none = []
or_empty_text (some t) = t

-- `unique[0]!`: no keyring without a key.
abbrev pub keyring_of : List MasterKey → Option MasterKeyring
keyring_of [] = none
keyring_of (k ∷ ks) = some (record { current = k; all = k ∷ ks })

-- An absent and an empty id are falsy.
unfoldable pub candidates : MasterKeyring → Option Text → List MasterKey
candidates keyring none = keyring.all
candidates keyring (some []) = keyring.all
candidates keyring (some (c ∷ cs)) = select (has_id (c ∷ cs)) keyring.all

module _ (w : WebCrypto) where
  abbrev pub master_key_id : Text → Text
  master_key_id key = take 16 (w.sha256_hex (codes "kody-celld-master-key:" ++ key))

  unfoldable pub build_master_keyring :
      (current : Text) (previous : Option Text) → Option MasterKeyring
  unfolding non_empty_texts unique_keys split_from
  build_master_keyring current previous =
      let keys =
        non_empty_texts (map w.trim (current ∷ split_from 44 [] (or_empty_text previous))) in
      keyring_of (unique_keys [] (map (λ k. record { id = master_key_id k; key = k }) keys))

  -- `iv` is the twelve bytes that getRandomValues draws.
  unfoldable pub encrypt_secret_value :
      (iv : List ℕ) (master_key user_id plaintext : Text) → EncryptedValue
  encrypt_secret_value iv master_key user_id plaintext = record {
    iv = bytes_to_hex iv;
    ciphertext =
        bytes_to_hex (w.aes_encrypt (w.derive_key master_key user_id) iv (w.encode plaintext));
    key_id = some (master_key_id master_key);
  }

  abbrev decoded : Option (List ℕ) → Option Text
  decoded none = none
  decoded (some bytes) = some (w.decode bytes)

  unfoldable pub decrypt_secret_value : (master_key user_id : Text) → EncryptedValue → Option Text
  decrypt_secret_value master_key user_id value = decoded (
      w.aes_decrypt (w.derive_key master_key user_id) (hex_to_bytes value.iv)
        (hex_to_bytes value.ciphertext))

  unfoldable pub try_keys :
      List MasterKey → (user_id : Text) → EncryptedValue → Result KeyError Text
  unfolding decrypt_secret_value
  try_keys [] user_id value = err undecryptable
  try_keys (k ∷ ks) user_id value =
      or_next (decrypt_secret_value k.key user_id value) (try_keys ks user_id value)

  abbrev pub decrypt_with :
      List MasterKey → (user_id : Text) → EncryptedValue → Result KeyError Text
  decrypt_with [] user_id value = err unknown_key
  decrypt_with (k ∷ ks) user_id value = try_keys (k ∷ ks) user_id value

  unfoldable pub decrypt_with_keyring :
      MasterKeyring → (user_id : Text) → EncryptedValue → Result KeyError Text
  unfolding candidates try_keys
  decrypt_with_keyring keyring user_id value =
      decrypt_with (candidates keyring value.key_id) user_id value

  -- A sealed text is read back by the key that sealed it, for the same user. AES-GCM works as
  -- documented, the iv is bytes, and UTF-8 keeps the text.
  pub decrypt-encrypt :
      (iv : List ℕ) (master_key user_id plaintext : Text)
      → IsWebCrypto w
      → KeepsText w plaintext
      → All IsByte iv
      → decrypt_secret_value master_key user_id
          (encrypt_secret_value iv master_key user_id plaintext)
        ≡ some plaintext
  unfolding decrypt_secret_value encrypt_secret_value
  decrypt-encrypt iv master_key user_id plaintext good kept bytes =
      let key = w.derive_key master_key user_id in
      let cipher = w.aes_encrypt key iv (w.encode plaintext) in
      ap (λ v. decoded (w.aes_decrypt key v (hex_to_bytes (bytes_to_hex cipher))))
        (hex_to_bytes-bytes_to_hex iv bytes)
      ∙ ap (λ c. decoded (w.aes_decrypt key iv c))
          (hex_to_bytes-bytes_to_hex cipher (good.ciphers key iv (w.encode plaintext)))
      ∙ ap decoded (good.decrypts key iv (w.encode plaintext))
      ∙ ap some kept
