-- ===== src/Providers/Runs.antt =====
-- The cells that calls of the methods can produce.
use kody_celld.Prelude.{ℕ, Bool, Option, none, some, List, [], Text, inl, inr, leb, Bool-cases}
use kody_celld.Table.{find}
use kody_celld.Secrets.Defs.{SecretRow}
use kody_celld.Providers.Defs.{
  Binding, CachedValue, SavedPackage, ProviderCell, has_cache_key, cache_key,
}
use kody_celld.Providers.Store
use kody_celld.Providers.Store.{
  BindInput, get_binding, set_locked, revoke_grant, permits, fresh, cache_get, cache_put,
}
use kody_celld.Providers.Cell.{
  secret_provider_bind, secret_provider_authorize, authorize_binding, check_permits,
  secret_provider_grant, package_saved, package_deleted, canonical_of,
}
use kody_celld.Providers.Unbound.{IsSound, unbind-IsSound}
use kody_celld.Providers.Packages.{package_saved-IsSound, package_deleted-IsSound}
use kody_celld.Providers.Written.{
  secret_provider_bind-IsSound, set_locked-IsSound, secret_provider_grant-IsSound,
  revoke_grant-IsSound,
}

-- One call, with any reading of the clock; a call that throws is a step too. The secrets change by
-- calls of their own, to any table.
pub data Call : ProviderCell → ProviderCell → Type 0 where
  bind :
      (s : ProviderCell) (input : BindInput) (now : ℕ) → Call s (secret_provider_bind input now s).1
  lock :
      (s : ProviderCell) (provider_id : Text) (locked : Bool) (now : ℕ)
      → Call s (set_locked provider_id locked now s).1
  unbind : (s : ProviderCell) (provider_id : Text) → Call s (Store.unbind provider_id s)
  authorize :
      (s : ProviderCell) (provider_id ref : Text) (package_name : Option Text) (strict : Bool)
      (now : ℕ)
      → Call s (secret_provider_authorize provider_id ref package_name strict now s).1
  grant :
      (s : ProviderCell) (provider_id canonical_ref package_name : Text) (now : ℕ)
      → Call s (secret_provider_grant provider_id canonical_ref package_name now s).1
  revoke :
      (s : ProviderCell) (provider_id canonical_ref package_name : Text)
      → Call s (revoke_grant provider_id canonical_ref package_name s)
  cache :
      (s : ProviderCell) (provider_id ref value : Text) (hosts : List Text) (canonical_ref : Text)
      (ttl_ms now : ℕ)
      → Call s (cache_put provider_id ref value hosts canonical_ref ttl_ms now s)
  save_package : (s : ProviderCell) (pkg : SavedPackage) → Call s (package_saved pkg s)
  delete_package : (s : ProviderCell) (name : Text) → Call s (package_deleted name s)
  write_secrets : (s : ProviderCell) (rows : List SecretRow) → Call s (record s { secrets = rows })

abbrev pub empty_cell : ProviderCell
empty_cell = record { packages = []; secrets = []; bindings = []; grants = []; cache = [] }

pub data Reach : ProviderCell → Type 0 where
  start : Reach empty_cell
  next : {s t : ProviderCell} → Reach s → Call s t → Reach t

-- A cell with the same bindings, grants and packages.
recached-IsSound :
    (s : ProviderCell) (entries : List (Text × CachedValue))
    → IsSound s
    → IsSound (record s { cache = entries })
recached-IsSound s entries h = record { unique = h.unique; served = h.served; granted = h.granted }

fresh-IsSound :
    (found : Option (Text × CachedValue)) (key : Text) (now : ℕ) (s : ProviderCell)
    → IsSound s
    → IsSound (fresh found key now s).1
fresh-IsSound none key now s h = h
fresh-IsSound (some (key', hit)) key now s h = elim (Bool-cases (leb hit.expires_at now)) [
  | inl t ↦ rw t (recached-IsSound s _ h)
  | inr f ↦ rw f h
]

check_permits-IsSound :
    (binding : Binding) (read : Option CachedValue × ProviderCell) (provider_id ref : Text)
    (package_name : Option Text) (strict : Bool)
    → IsSound read.1
    → IsSound (check_permits binding read provider_id ref package_name strict).1
check_permits-IsSound binding (cached, s) provider_id ref package_name strict h =
    elim (Bool-cases (permits binding (canonical_of cached ref) package_name s)) [
      | inl t ↦ rw t h
      | inr f ↦ rw f h
    ]

authorize_binding-IsSound :
    (binding : Option Binding) (provider_id ref : Text) (package_name : Option Text) (strict : Bool)
    (now : ℕ) (s : ProviderCell)
    → IsSound s
    → IsSound (authorize_binding binding provider_id ref package_name strict now s).1
authorize_binding-IsSound none provider_id ref package_name strict now s h = h
authorize_binding-IsSound (some binding) provider_id ref package_name strict now s h =
    check_permits-IsSound binding (cache_get provider_id ref now s) provider_id ref package_name
      strict
      (unfold cache_get in
        fresh-IsSound (find (has_cache_key (cache_key provider_id ref)) s.cache)
          (cache_key provider_id ref) now s h)

cache_put-IsSound :
    (provider_id ref value : Text) (hosts : List Text) (canonical_ref : Text) (ttl_ms now : ℕ)
    (s : ProviderCell)
    → IsSound s
    → IsSound (cache_put provider_id ref value hosts canonical_ref ttl_ms now s)
unfolding cache_put
cache_put-IsSound provider_id ref value hosts canonical_ref ttl_ms now s h =
    elim (Bool-cases (leb ttl_ms 0)) [ inl t ↦ rw t h | inr f ↦ rw f (recached-IsSound s _ h) ]

Call-IsSound : {s t : ProviderCell} → Call s t → IsSound s → IsSound t
Call-IsSound (bind s input now) h = secret_provider_bind-IsSound input now s h
Call-IsSound (lock s provider_id locked now) h = set_locked-IsSound provider_id locked now s h
Call-IsSound (unbind s provider_id) h = unbind-IsSound provider_id s h
Call-IsSound (authorize s provider_id ref package_name strict now) h =
    unfold secret_provider_authorize in
    authorize_binding-IsSound (get_binding provider_id s) provider_id ref package_name strict now s
      h
Call-IsSound (grant s provider_id canonical_ref package_name now) h =
    secret_provider_grant-IsSound provider_id canonical_ref package_name now s h
Call-IsSound (revoke s provider_id canonical_ref package_name) h =
    revoke_grant-IsSound provider_id canonical_ref package_name s h
Call-IsSound (cache s provider_id ref value hosts canonical_ref ttl_ms now) h =
    cache_put-IsSound provider_id ref value hosts canonical_ref ttl_ms now s h
Call-IsSound (save_package s pkg) h = package_saved-IsSound pkg s h
Call-IsSound (delete_package s name) h = package_deleted-IsSound name s h
Call-IsSound (write_secrets s rows) h = record {
  unique = h.unique;
  served = h.served;
  granted = h.granted;
}

-- In every cell that calls can produce, returning or throwing, a provider is bound at most once, each
-- binding is served by a package that is saved and declares a provider, and each grant is for a
-- provider that is bound.
pub bound_by_saved : {s : ProviderCell} → Reach s → IsSound s
bound_by_saved start = record { unique = tt; served = tt; granted = tt }
bound_by_saved (next r c) = Call-IsSound c (bound_by_saved r)
