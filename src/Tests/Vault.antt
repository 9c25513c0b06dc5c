-- ===== src/Tests/Vault.antt =====
-- Concrete stand-ins for the platform: the hash is the identity, and a sealed response is its fields
-- with their lengths in front.
use kody_celld.Prelude.{
  ℕ, zero, suc, false, Option, none, some, [], ◌∷◌, ◌++◌, Text, same, length, take,
}
use kody_celld.Oauth.Defs.{TokenResponse, Vault}
use kody_celld.Account.Defs.{Platform}

abbrev drop : ℕ → Text → Text
drop zero cs = cs
drop (suc n) [] = []
drop (suc n) (c ∷ cs) = drop n cs

abbrev seal : Text → TokenResponse → Text
seal iv r =
    length r.access_token
    ∷ length r.refresh_token
    ∷ r.expires_in
    ∷ (r.access_token ++ (r.refresh_token ++ r.scope))

abbrev unseal : Text → Option TokenResponse
unseal (a ∷ b ∷ expires_in ∷ cs) = some (record {
  access_token = take a cs;
  expires_in = expires_in;
  refresh_token = take b (drop a cs);
  scope = drop b (drop a cs);
})
unseal _ = none

abbrev pub plain : Vault
plain = record { encode = λ t. t; sha256_hex = λ t. t; seal_replay = seal; open_replay = unseal }

-- A password is its own hash, and every hash is of the current work factor.
abbrev pub bare : Platform
bare = record {
  sha256_hex = λ t. t;
  hash_password = λ salt password. password;
  verify_password = same;
  password_needs_rehash = λ hash. false;
  trim = λ t. t;
  to_lower_case = λ t. t;
}
