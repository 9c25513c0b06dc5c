-- ===== src/Gateway/Items.antt =====
-- The items of providers that the gateway injects.
use kody_celld.Prelude.{ℕ, Bool, true, false, not, ◌||◌, List, [], ◌∷◌, Text, ◌≡◌, All}
use kody_celld.Act.{require}
use kody_celld.Gateway.Policy.{is_host_approved}
use kody_celld.Gateway.Placeholders.{ReferencedProviderSecret}
use kody_celld.Gateway.Replace.{Collected}
use kody_celld.Gateway.State.{
  secret_provider_host_not_allowed, secret_provider_recursion, GatewayState, GatewayHost,
}
use kody_celld.Gateway.Inject.{Replacements, distinct_refs}
use kody_celld.Gateway.Ask.{
  authorize_ref, item_for, add_item, resolve_item, inject_items, ask_items, inject_provider_secrets,
  is_bound_provider,
}
use kody_celld.Gateway.Steps.{Kept, Quiet, Quiet-then, weaken, Any, require-Quiet}
use kody_celld.Providers.Defs.{CachedValue}
use kody_celld.Gateway.Rights.{IsAuthorized, authorize_ref-Quiet}
use kody_celld.Gateway.Answers.{IsItemLet, item_for-Quiet}

module _ (host : GatewayHost) where
  -- A provider's item goes to one of its own hosts, or to an approved one.
  abbrev pub IsItemSafe :
      GatewayState → (request_host : Text) (host_approved : Bool) → Text × Text → Type 0
  IsItemSafe s request_host host_approved (provider, ref) =
      (item : CachedValue) × IsItemLet host s provider item
      × ((is_host_approved request_host item.hosts || host_approved) ≡ true)

  resolve_item-Quiet :
      (request_host : Text) (host_approved : Bool) (now : ℕ) (provider ref : Text)
      (s t : GatewayState)
      → (host.cache_ttl_ms ≡ 0 → s.cell.cache ≡ [])
      → Kept host s t
      → Quiet host s
          (λ item. IsItemSafe s request_host host_approved (provider, ref))
          (resolve_item host request_host host_approved now provider ref t)
  unfolding resolve_item
  resolve_item-Quiet request_host host_approved now provider ref s t clean h =
      Quiet-then host s (IsAuthorized host s t provider ref false now)
        (λ item. IsItemSafe s request_host host_approved (provider, ref))
        (authorize_ref host provider ref false now t) _
        (authorize_ref-Quiet host provider ref false now s t h)
        (λ auth t1 h1 held.
          Quiet-then host s (IsItemLet host s provider)
            (λ item. IsItemSafe s request_host host_approved (provider, ref))
            (item_for host provider ref auth now t1) _
            (item_for-Quiet host provider ref auth now s t1 t clean h1 held)
            (λ item t2 h2 let_in.
              Quiet-then host s
                (λ u. (is_host_approved request_host item.hosts || host_approved) ≡ true)
                (λ item. IsItemSafe s request_host host_approved (provider, ref))
                (require (is_host_approved request_host item.hosts || host_approved)
                  secret_provider_host_not_allowed t2)
                _
                (require-Quiet host (is_host_approved request_host item.hosts || host_approved)
                  secret_provider_host_not_allowed s t2 h2)
                (λ u t3 h3 allowed. (h3, (item, let_in, allowed)))))

  inject_items-Quiet :
      (request_host : Text) (host_approved : Bool) (now : ℕ)
      (placeholders : List ReferencedProviderSecret) (refs : List (Text × Text)) (rs : Replacements)
      (s t : GatewayState)
      → (host.cache_ttl_ms ≡ 0 → s.cell.cache ≡ [])
      → Kept host s t
      → Quiet host s
          (λ rs'. All (IsItemSafe s request_host host_approved) refs)
          (inject_items host request_host host_approved now placeholders refs rs t)
  unfolding inject_items
  inject_items-Quiet request_host host_approved now placeholders [] rs s t clean h = (h, tt)
  inject_items-Quiet request_host host_approved now placeholders ((provider, ref) ∷ refs) rs s t
        clean h =
      Quiet-then host s (λ item. IsItemSafe s request_host host_approved (provider, ref))
        (λ rs'. All (IsItemSafe s request_host host_approved) ((provider, ref) ∷ refs))
        (resolve_item host request_host host_approved now provider ref t) _
        (resolve_item-Quiet request_host host_approved now provider ref s t clean h)
        (λ item u h1 safe.
          weaken host s (λ rs'. All (IsItemSafe s request_host host_approved) refs)
            (λ rs'. All (IsItemSafe s request_host host_approved) ((provider, ref) ∷ refs))
            (inject_items host request_host host_approved now placeholders refs
              (add_item host provider ref item.value placeholders rs) u)
            (λ rs' later. (safe, later))
            (inject_items-Quiet request_host host_approved now placeholders refs
              (add_item host provider ref item.value placeholders rs) s u clean h1))

  ask_items-Quiet :
      (refs : List (Text × Text)) (request_host : Text) (host_approved : Bool) (now : ℕ)
      (placeholders : List ReferencedProviderSecret) (rs : Replacements) (s t : GatewayState)
      → (host.cache_ttl_ms ≡ 0 → s.cell.cache ≡ [])
      → Kept host s t
      → Quiet host s
          (λ rs'. All (IsItemSafe s request_host host_approved) refs)
          (ask_items host refs request_host host_approved now placeholders rs t)
  ask_items-Quiet [] request_host host_approved now placeholders rs s t clean h = (h, tt)
  ask_items-Quiet (ref ∷ refs) request_host host_approved now placeholders rs s t clean h =
      Quiet-then host s Any (λ rs'. All (IsItemSafe s request_host host_approved) (ref ∷ refs))
        (require (not (is_bound_provider host host.package_name t.cell)) secret_provider_recursion
          t)
        _
        (weaken host s (λ u. not (is_bound_provider host host.package_name t.cell) ≡ true) Any
          (require (not (is_bound_provider host host.package_name t.cell)) secret_provider_recursion
            t)
          (λ u e. tt)
          (require-Quiet host (not (is_bound_provider host host.package_name t.cell))
            secret_provider_recursion s t h))
        (λ u t1 h1 p.
          inject_items-Quiet request_host host_approved now placeholders (ref ∷ refs) rs s t1 clean
            h1)

  pub inject_provider_secrets-Quiet :
      (request_host : Text) (host_approved : Bool) (now : ℕ) (c : Collected) (rs : Replacements)
      (s t : GatewayState)
      → (host.cache_ttl_ms ≡ 0 → s.cell.cache ≡ [])
      → Kept host s t
      → Quiet host s
          (λ rs'.
            All (IsItemSafe s request_host host_approved) (distinct_refs [] c.provider_secrets))
          (inject_provider_secrets host request_host host_approved now c rs t)
  unfolding inject_provider_secrets
  inject_provider_secrets-Quiet request_host host_approved now c rs s t clean h =
      ask_items-Quiet (distinct_refs [] c.provider_secrets) request_host host_approved now
        c.provider_secrets rs s t clean h
