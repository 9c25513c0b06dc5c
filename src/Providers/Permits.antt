-- ===== src/Providers/Permits.antt =====
-- What an authorization says of the binding and its grants.
use kody_celld.Prelude.{
  ℕ, Bool, true, false, Option, none, some, Text, ◌≡◌, ◌⊎◌, inl, inr, refl, Bool-cases,
}
use kody_celld.Act.{Result, ok, err}
use kody_celld.Providers.Defs.{Binding, CachedValue, ProviderCell}
use kody_celld.Providers.Store.{get_binding, permits, cache_get}
use kody_celld.Providers.Cell.{
  Authorized, authorized, AuthorizeError, secret_provider_authorize, authorize_binding,
  check_permits, not_permitted, canonical_of, holds_some_grant,
}

-- The binding lets the package read the item.
abbrev pub IsAllowed :
    (provider_id ref : Text) (package_name : Option Text) (now : ℕ) (s s' : ProviderCell)
    (b : Binding) (cached : Option CachedValue)
    → Type 0
IsAllowed provider_id ref package_name now s s' b cached =
    (get_binding provider_id s ≡ some b)
    × (permits b (canonical_of cached ref) package_name s' ≡ true)
    × (cached ≡ (cache_get provider_id ref now s).0)

abbrev Outcome :
    (provider_id ref : Text) (package_name : Option Text) (strict : Bool) (now : ℕ)
    (s : ProviderCell)
    → Result AuthorizeError Authorized × ProviderCell
    → Type 0
Outcome provider_id ref package_name strict now s (ok (authorized b cached provisional), s') =
    IsAllowed provider_id ref package_name now s s' b cached
    ⊎ ((provisional ≡ true) × (strict ≡ false) × (cached ≡ none))
Outcome provider_id ref package_name strict now s (err e, s') = Unit

not_permitted-Outcome :
    (b : Binding) (provider_id ref : Text) (package_name : Option Text) (strict : Bool)
    (cached : Option CachedValue) (now : ℕ) (s s' : ProviderCell)
    → Outcome provider_id ref package_name strict now s
        (not_permitted b provider_id cached package_name strict s', s')
not_permitted-Outcome b provider_id ref package_name strict (some cached) now s s' = tt
not_permitted-Outcome b provider_id ref package_name true none now s s' = tt
not_permitted-Outcome b provider_id ref package_name false none now s s' =
    elim (Bool-cases (holds_some_grant provider_id package_name s')) [
      | inl t ↦ rw t (inr (refl, refl, refl))
      | inr f ↦ rw f tt
    ]

check_permits-Outcome :
    (b : Binding) (read : Option CachedValue × ProviderCell) (provider_id ref : Text)
    (package_name : Option Text) (strict : Bool) (now : ℕ) (s : ProviderCell)
    → get_binding provider_id s ≡ some b
    → read.0 ≡ (cache_get provider_id ref now s).0
    → Outcome provider_id ref package_name strict now s
        (check_permits b read provider_id ref package_name strict)
check_permits-Outcome b (cached, s') provider_id ref package_name strict now s e c =
    elim (Bool-cases (permits b (canonical_of cached ref) package_name s')) [
      | inl t ↦ rw t (inl (e, t, c))
      | inr f ↦ rw f (not_permitted-Outcome b provider_id ref package_name strict cached now s s')
    ]

authorize_binding-Outcome :
    (found : Option Binding) (provider_id ref : Text) (package_name : Option Text) (strict : Bool)
    (now : ℕ) (s : ProviderCell)
    → get_binding provider_id s ≡ found
    → Outcome provider_id ref package_name strict now s
        (authorize_binding found provider_id ref package_name strict now s)
authorize_binding-Outcome none provider_id ref package_name strict now s e = tt
authorize_binding-Outcome (some b) provider_id ref package_name strict now s e =
    check_permits-Outcome b (cache_get provider_id ref now s) provider_id ref package_name strict
      now s e refl

-- An authorization that is not provisional is allowed; a strict one is never provisional, and a
-- provisional one has no value.
pub authorized_lem :
    (provider_id ref : Text) (package_name : Option Text) (strict : Bool) (now : ℕ)
    (s s' : ProviderCell) (b : Binding) (cached : Option CachedValue) (provisional : Bool)
    → secret_provider_authorize provider_id ref package_name strict now s
      ≡ (ok (authorized b cached provisional), s')
    → IsAllowed provider_id ref package_name now s s' b cached
      ⊎ ((provisional ≡ true) × (strict ≡ false) × (cached ≡ none))
unfolding secret_provider_authorize
authorized_lem provider_id ref package_name strict now s s' b cached provisional e =
    let held =
      authorize_binding-Outcome (get_binding provider_id s) provider_id ref package_name strict now
        s refl in
    rw e at held
