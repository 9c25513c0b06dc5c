-- ===== src/Providers/Cell.antt =====
-- `secretProviderBind`, `secretProviderAuthorize`, `secretProviderGrant` and the writes of `packageSave`
-- and `packageDelete` to bindings, of src/cells/user-cell.ts.
use kody_celld.Prelude.{
  ℕ, Bool, true, false, not, ◌&&◌, Option, none, some, List, ◌∷◌, Text, same, if◌then◌else◌,
}
use kody_celld.Table.{find, delete, update, exists}
use kody_celld.Act.{Act, Result, ok, err, ◌>>=◌, ◌>>◌, throw, gets, modify, require}
use kody_celld.Secrets.Defs.{
  SecretScope, user_scope, package_scope, session_scope, same_scope, SecretRow,
}
use kody_celld.Providers.Defs.{
  Binding, ProviderGrant, CachedValue, ProviderExport, SavedPackage, ProviderCell, ProviderError,
  package_not_found, not_a_secret_provider, secret_not_found, secret_provider_not_bound,
  has_package_name, is_grant_for,
}
use kody_celld.Providers.Store.{
  BindInput, get_binding, invalidate, bind, permits, unbind_package, cache_get, grant_row,
}

unfoldable pub package_get : (name : Text) → ProviderCell → Option SavedPackage
package_get name s = find (has_package_name name) s.packages

-- Whether a package declares a provider of the id.
abbrev pub declares_id : Option ProviderExport → (provider_id : Text) → Bool
declares_id none provider_id = false
declares_id (some provider) provider_id = same provider.id provider_id

abbrev pub check_package :
    Option SavedPackage → (provider_id : Text) → Act ProviderCell ProviderError (Unit {0})
check_package none provider_id = throw package_not_found
check_package (some pkg) provider_id =
    require (declares_id pkg.secret_provider provider_id) not_a_secret_provider

abbrev pub opens_for : SecretScope → (secret_package package_name : Text) → Bool
opens_for user_scope secret_package package_name = true
opens_for package_scope secret_package package_name = same secret_package package_name
opens_for session_scope secret_package package_name = false

abbrev pub is_door : (door_secret_name package_name : Text) → SecretRow → Bool
is_door door_secret_name package_name row =
    same row.name door_secret_name && opens_for row.scope row.package_name package_name

unfoldable pub secret_provider_bind :
    BindInput → (now : ℕ) → Act ProviderCell ProviderError (Option Binding)
unfolding package_get bind get_binding
secret_provider_bind input now = do
  pkg ← gets (package_get input.package_name)
  check_package pkg input.provider_id
  door ← gets (λ s. exists (is_door input.door_secret_name input.package_name) s.secrets)
  require door secret_not_found
  modify (bind input now)
  gets (get_binding input.provider_id)

pub data Authorized : Type 0 where
  authorized : Binding → Option CachedValue → (provisional : Bool) → Authorized

pub data AuthorizeError : Type 0 where
  not_bound not_granted : AuthorizeError

abbrev pub is_own_grant : (package_name : Text) → ProviderGrant → Bool
is_own_grant package_name row = same row.package_name package_name

abbrev pub holds_some_grant :
    (provider_id : Text) → (package_name : Option Text) → ProviderCell → Bool
holds_some_grant provider_id none s = false
holds_some_grant provider_id (some package_name) s =
    exists (λ g. is_grant_for provider_id g && is_own_grant package_name g) s.grants

abbrev pub canonical_of : Option CachedValue → (ref : Text) → Text
canonical_of none ref = ref
canonical_of (some cached) ref = cached.canonical_ref

-- A package that holds some grant may learn the canonical name of a reference that is not cached.
abbrev pub not_permitted :
    Binding
    → (provider_id : Text) → (cached : Option CachedValue) → (package_name : Option Text)
    → (strict : Bool) → ProviderCell
    → Result AuthorizeError Authorized
not_permitted binding provider_id (some cached) package_name strict s = err not_granted
not_permitted binding provider_id none package_name strict s =
    if not strict && holds_some_grant provider_id package_name s
    then ok (authorized binding none true)
    else err not_granted

abbrev pub check_permits :
    Binding
    → Option CachedValue × ProviderCell
    → (provider_id ref : Text) → (package_name : Option Text) → (strict : Bool)
    → Result AuthorizeError Authorized × ProviderCell
check_permits binding (cached, s) provider_id ref package_name strict =
    if permits binding (canonical_of cached ref) package_name s
    then (ok (authorized binding cached false), s)
    else (not_permitted binding provider_id cached package_name strict s, s)

abbrev pub authorize_binding :
    Option Binding
    → (provider_id ref : Text) → (package_name : Option Text) → (strict : Bool) → (now : ℕ)
    → Act ProviderCell AuthorizeError Authorized
authorize_binding none provider_id ref package_name strict now s = (err not_bound, s)
authorize_binding (some binding) provider_id ref package_name strict now s =
    check_permits binding (cache_get provider_id ref now s) provider_id ref package_name strict

unfoldable pub secret_provider_authorize :
    (provider_id ref : Text)
    → (package_name : Option Text) → (strict : Bool) → (now : ℕ)
    → Act ProviderCell AuthorizeError Authorized
unfolding get_binding permits cache_get
secret_provider_authorize provider_id ref package_name strict now s =
    authorize_binding (get_binding provider_id s) provider_id ref package_name strict now s

abbrev pub is_saved {ℓ} : {A : Type ℓ} → Option A → Bool
is_saved none = false
is_saved (some a) = true

unfoldable pub secret_provider_grant :
    (provider_id canonical_ref package_name : Text) (now : ℕ)
    → Act ProviderCell ProviderError (Unit {0})
unfolding get_binding package_get grant_row
secret_provider_grant provider_id canonical_ref package_name now = do
  binding ← gets (get_binding provider_id)
  require (is_saved binding) secret_provider_not_bound
  pkg ← gets (package_get package_name)
  require (is_saved pkg) package_not_found
  modify (grant_row provider_id canonical_ref package_name now)

-- The row that `packageSave` writes, as far as the providers read it.
abbrev pub write_package :
    Option SavedPackage → SavedPackage → List SavedPackage → List SavedPackage
write_package none pkg rows = pkg ∷ rows
write_package (some existing) pkg rows =
    update (has_package_name pkg.name) (λ row. record row { secret_provider = pkg.secret_provider })
      rows

abbrev pub settle_bindings : Option ProviderExport → (name : Text) → ProviderCell → ProviderCell
settle_bindings none name s = unbind_package name s
settle_bindings (some provider) name s = invalidate provider.id s

unfoldable pub package_saved : SavedPackage → ProviderCell → ProviderCell
unfolding package_get unbind_package invalidate
package_saved pkg s =
    settle_bindings pkg.secret_provider pkg.name
      (record s { packages = write_package (package_get pkg.name s) pkg s.packages })

abbrev pub is_package_secret : (package_name : Text) → SecretRow → Bool
is_package_secret package_name row =
    same_scope row.scope package_scope && same row.package_name package_name

unfoldable pub package_deleted : (name : Text) → ProviderCell → ProviderCell
unfolding unbind_package
package_deleted name s = unbind_package name (record s {
  packages = delete (has_package_name name) s.packages;
  secrets = delete (is_package_secret name) s.secrets;
})
