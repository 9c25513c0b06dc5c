-- ===== src/Providers/Defs.antt =====
-- The tables of `SecretProviderStore`, its cache, and the columns of the packages that it relies on.
use kody_celld.Prelude.{ℕ, Bool, ◌&&◌, Option, List, [], ◌∷◌, ◌++◌, Text, same, starts_with}
use kody_celld.Secrets.Defs.{SecretRow}

-- PRIMARY KEY (provider_id)
pub record Binding : Type 0 where
  pub provider_id : Text
  pub package_name : Text
  pub door_secret_name : Text
  pub config : List (Text × Text)
  pub locked : Bool
  pub created_at : ℕ
  pub updated_at : ℕ

-- PRIMARY KEY (provider_id, canonical_ref, package_name)
pub record ProviderGrant : Type 0 where
  pub provider_id : Text
  pub canonical_ref : Text
  pub package_name : Text
  pub created_at : ℕ

pub record CachedValue : Type 0 where
  pub value : Text
  pub hosts : List Text
  pub canonical_ref : Text
  pub expires_at : ℕ

-- `manifest.secretProvider`
pub record ProviderExport : Type 0 where
  pub id : Text
  pub entry : Text

pub record SavedPackage : Type 0 where
  pub name : Text
  pub secret_provider : Option ProviderExport

-- The cache is a Map, in the order of insertion.
pub record ProviderCell : Type 0 where
  pub packages : List SavedPackage
  pub secrets : List SecretRow
  pub bindings : List Binding
  pub grants : List ProviderGrant
  pub cache : List (Text × CachedValue)

pub data ProviderError : Type 0 where
  package_not_found not_a_secret_provider secret_not_found secret_provider_not_bound : ProviderError

abbrev pub has_provider_id : (provider_id : Text) → Binding → Bool
has_provider_id provider_id row = same row.provider_id provider_id

abbrev pub is_grant_for : (provider_id : Text) → ProviderGrant → Bool
is_grant_for provider_id row = same row.provider_id provider_id

abbrev pub is_grant_row : (provider_id canonical_ref package_name : Text) → ProviderGrant → Bool
is_grant_row provider_id canonical_ref package_name row =
    same row.provider_id provider_id
    && (same row.canonical_ref canonical_ref && same row.package_name package_name)

abbrev pub has_package_name : Text → SavedPackage → Bool
has_package_name name row = same row.name name

-- `${providerId}\u0000${ref}`
abbrev pub cache_key : (provider_id ref : Text) → Text
cache_key provider_id ref = provider_id ++ 0 ∷ ref

abbrev pub has_cache_key : Text → Text × CachedValue → Bool
has_cache_key key entry = same entry.0 key

abbrev pub is_cached_for : (provider_id : Text) → Text × CachedValue → Bool
is_cached_for provider_id entry = starts_with (provider_id ++ 0 ∷ []) entry.0
