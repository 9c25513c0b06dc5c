-- ===== src/Providers/Unbound.antt =====
-- What stays of the bindings and grants where providers are unbound.
use kody_celld.Prelude.{
  Bool, true, false, ◌&&◌, Option, none, some, List, [], ◌∷◌, ◌≡◌, Text, same, same→eq, All,
  Bool-cases, inl, inr,
}
use kody_celld.Table.{delete, exists}
use kody_celld.Table.Laws.{All-delete, exists-delete_kept}
use kody_celld.Table.Pairs.{AllPairs, AllPairs-delete}
use kody_celld.Providers.Defs.{
  Binding, ProviderGrant, ProviderExport, SavedPackage, ProviderCell, has_provider_id, is_grant_for,
  has_package_name,
}
use kody_celld.Providers.Store.{unbind}

abbrev pub has_export : Option ProviderExport → Bool
has_export none = false
has_export (some provider) = true

abbrev pub serves : (package_name : Text) → SavedPackage → Bool
serves package_name p = has_package_name package_name p && has_export p.secret_provider

-- A package is saved that declares a provider and serves the binding.
abbrev pub IsServed : List SavedPackage → Binding → Type 0
IsServed packages b = exists (serves b.package_name) packages ≡ true

abbrev pub IsBound : List Binding → ProviderGrant → Type 0
IsBound bindings g = exists (has_provider_id g.provider_id) bindings ≡ true

abbrev pub Differ : Binding → Binding → Type 0
Differ a b = same a.provider_id b.provider_id ≡ false

-- A provider is bound once, by a package that declares one, and grants are for bound providers.
pub record IsSound (s : ProviderCell) : Type 0 where
  pub unique : AllPairs Differ s.bindings
  pub served : All (IsServed s.packages) s.bindings
  pub granted : All (IsBound s.bindings) s.grants

-- The grants that are left are for other providers, whose bindings are left too.
IsBound-delete :
    (provider_id : Text) (bindings : List Binding) (g : ProviderGrant)
    → IsBound bindings g
    → is_grant_for provider_id g ≡ false
    → IsBound (delete (has_provider_id provider_id) bindings) g
IsBound-delete provider_id bindings g h other =
    exists-delete_kept (has_provider_id g.provider_id) (has_provider_id provider_id) bindings
      (λ b e.
        let eq : b.provider_id ≡ g.provider_id = same→eq b.provider_id g.provider_id e in
        rw eq other)
      h

pub All-kept :
    (provider_id : Text) (bindings : List Binding) (grants : List ProviderGrant)
    → All (IsBound bindings) grants
    → All
        (IsBound (delete (has_provider_id provider_id) bindings))
        (delete (is_grant_for provider_id) grants)
unfolding delete
All-kept provider_id bindings [] h = tt
All-kept provider_id bindings (g ∷ grants) h = elim (Bool-cases (is_grant_for provider_id g)) [
  | inl t ↦ rw t (All-kept provider_id bindings grants h.1)
  | inr f ↦
      rw f (IsBound-delete provider_id bindings g h.0 f, All-kept provider_id bindings grants h.1)
]

pub unbind-IsSound :
    (provider_id : Text) (s : ProviderCell) → IsSound s → IsSound (unbind provider_id s)
unfolding unbind
unbind-IsSound provider_id s h = record {
  unique = AllPairs-delete Differ (has_provider_id provider_id) s.bindings h.unique;
  served = All-delete (IsServed s.packages) (has_provider_id provider_id) s.bindings h.served;
  granted = All-kept provider_id s.bindings s.grants h.granted;
}
