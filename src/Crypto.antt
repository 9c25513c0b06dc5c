-- ===== src/Crypto.antt =====
-- The comparison of src/auth/password.ts, and src/lib/crypto.ts: hex texts and the keyring that
-- seals values with the platform's AES-GCM.
pub mod Bits
pub mod Equal
pub mod Hex
pub mod Keyring
pub mod Built
pub mod Masks
