-- ===== src/Gateway/Ask.antt =====
-- The items that providers give: `injectProviderSecrets` of src/secrets/fetch-gateway.ts.
use kody_celld.Prelude.{
  ℕ, Bool, true, false, not, ◌||◌, Option, none, some, List, [], ◌∷◌, Text, same, if◌then◌else◌,
}
use kody_celld.Table.{exists}
use kody_celld.Act.{Result, ok, err, ◌>>=◌, ◌>>◌, pure, throw, gets, modify, require}
use kody_celld.Gateway.Policy.{is_host_approved}
use kody_celld.Gateway.Placeholders.{ReferencedProviderSecret}
use kody_celld.Gateway.Replace.{Collected}
use kody_celld.Gateway.Provided.{ProviderResult, parse_provider_result}
use kody_celld.Gateway.State.{
  GatewayError, secret_provider_recursion, secret_provider_package_missing, secret_provider_failed,
  secret_provider_invalid_result, secret_provider_host_not_allowed, provider_refused, GatewayHost,
  Gateway,
}
use kody_celld.Providers.Defs.{Binding, CachedValue, ProviderExport, SavedPackage, ProviderCell}
use kody_celld.Providers.Store.{cache_put, is_served_by}
use kody_celld.Providers.Cell.{
  Authorized, authorized, AuthorizeError, secret_provider_authorize, package_get,
}
use kody_celld.Gateway.Inject.{Replacements, set_replacement, is_pair, distinct_refs}

module _ (host : GatewayHost) where
  abbrev pub in_cell : Result AuthorizeError Authorized × ProviderCell → Gateway Authorized
  in_cell (ok a, t) s = (ok a, record s { cell = t })
  in_cell (err e, t) s = (err (provider_refused e), record s { cell = t })

  unfoldable pub authorize_ref :
      (provider ref : Text) → (strict : Bool) → (now : ℕ) → Gateway Authorized
  unfolding secret_provider_authorize
  authorize_ref provider ref strict now s =
      in_cell (secret_provider_authorize provider ref host.package_name strict now s.cell) s

  abbrev pub entry_of_export : Option ProviderExport → Gateway Text
  entry_of_export none = throw secret_provider_package_missing
  entry_of_export (some provider) = pure provider.entry

  abbrev pub entry_of_package : Option SavedPackage → Gateway Text
  entry_of_package none = throw secret_provider_package_missing
  entry_of_package (some pkg) = entry_of_export pkg.secret_provider

  abbrev pub or_throw : {A : Type 0} → GatewayError → Option A → Gateway A
  or_throw e none = throw e
  or_throw e (some a) = pure a

  abbrev pub or_ref : Option Text → (ref : Text) → Text
  or_ref none ref = ref
  or_ref (some canonical_ref) ref = canonical_ref

  abbrev pub item_of : ProviderResult → (ref : Text) → CachedValue
  item_of r ref = record {
    value = r.value;
    hosts = r.hosts;
    canonical_ref = or_ref r.canonical_ref ref;
    expires_at = 0;
  }

  -- The grant is checked again under the name that the provider gave.
  abbrev pub check_again :
      (provider ref canonical_ref : Text) → (provisional : Bool) → (now : ℕ) → Gateway (Unit {0})
  check_again provider ref canonical_ref provisional now =
      if provisional || not (same canonical_ref ref)
      then (authorize_ref provider canonical_ref true now >>= λ again. pure tt)
      else pure tt

  -- The bound package is asked in a sealed run.
  unfoldable pub ask_provider :
      (provider ref : Text) → Binding → (provisional : Bool) → (now : ℕ) → Gateway CachedValue
  unfolding package_get parse_provider_result cache_put authorize_ref
  ask_provider provider ref binding provisional now = do
    pkg ← gets (λ s. package_get binding.package_name s.cell)
    entry ← entry_of_package pkg
    result ← or_throw secret_provider_failed (host.run_provider binding entry ref)
    parsed ←
        or_throw secret_provider_invalid_result (parse_provider_result host.store.platform result)
    modify (λ s. record s {
      cell =
          cache_put provider ref parsed.value parsed.hosts (or_ref parsed.canonical_ref ref)
            host.cache_ttl_ms now s.cell;
    })
    check_again provider ref (or_ref parsed.canonical_ref ref) provisional now
    pure (item_of parsed ref)

  abbrev pub item_for : (provider ref : Text) → Authorized → (now : ℕ) → Gateway CachedValue
  item_for provider ref (authorized binding (some cached) provisional) now = pure cached
  item_for provider ref (authorized binding none provisional) now =
      ask_provider provider ref binding provisional now

  abbrev pub add_item :
      (provider ref value : Text) → List ReferencedProviderSecret → Replacements → Replacements
  add_item provider ref value [] rs = rs
  add_item provider ref value (p ∷ ps) rs = add_item provider ref value ps (
      if is_pair provider ref (p.provider, p.ref)
      then set_replacement p.placeholder value rs
      else rs)

  -- One reference: its value, for this host.
  unfoldable pub resolve_item :
      (request_host : Text) (host_approved : Bool) (now : ℕ)
      → (provider ref : Text) → Gateway CachedValue
  unfolding authorize_ref ask_provider is_host_approved
  resolve_item request_host host_approved now provider ref = do
    auth ← authorize_ref provider ref false now
    item ← item_for provider ref auth now
    require (is_host_approved request_host item.hosts || host_approved)
        secret_provider_host_not_allowed
    pure item

  unfoldable pub inject_items :
      (request_host : Text) (host_approved : Bool) (now : ℕ)
      → List ReferencedProviderSecret
      → (refs : List (Text × Text)) → Replacements
      → Gateway Replacements
  unfolding resolve_item set_replacement
  inject_items request_host host_approved now placeholders [] rs = pure rs
  inject_items request_host host_approved now placeholders ((provider, ref) ∷ refs) rs = do
    item ← resolve_item request_host host_approved now provider ref
    inject_items request_host host_approved now placeholders refs
        (add_item provider ref item.value placeholders rs)

  abbrev pub is_bound_provider : (package_name : Option Text) → ProviderCell → Bool
  is_bound_provider none s = false
  is_bound_provider (some package_name) s = exists (is_served_by package_name) s.bindings

  abbrev pub ask_items :
      (refs : List (Text × Text))
      → (request_host : Text) (host_approved : Bool) (now : ℕ) → List ReferencedProviderSecret
      → Replacements
      → Gateway Replacements
  ask_items [] request_host host_approved now placeholders rs = pure rs
  ask_items (ref ∷ refs) request_host host_approved now placeholders rs = do
    recursive ← gets (λ s. is_bound_provider host.package_name s.cell)
    require (not recursive) secret_provider_recursion
    inject_items request_host host_approved now placeholders (ref ∷ refs) rs

  -- A package that serves a provider may not ask one itself.
  unfoldable pub inject_provider_secrets :
      (request_host : Text) (host_approved : Bool) (now : ℕ)
      → Collected
      → Replacements
      → Gateway Replacements
  unfolding inject_items distinct_refs
  inject_provider_secrets request_host host_approved now c rs =
      ask_items (distinct_refs [] c.provider_secrets) request_host host_approved now
        c.provider_secrets rs
