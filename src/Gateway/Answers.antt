-- ===== src/Gateway/Answers.antt =====
-- An item is given under a name that the package may read.
use kody_celld.Prelude.{
  ℕ, Bool, true, false, not, ◌||◌, Option, none, some, List, [], Text, ◌≡◌, inl, inr, sym, ap,
  subst, ◌∙◌, leb, arith, Bool-cases, Option-cases, same, same→eq,
}
use kody_celld.Gateway.Provided.{parse_provider_result}
use kody_celld.Gateway.State.{
  GatewayError, secret_provider_failed, secret_provider_invalid_result, GatewayState, GatewayHost,
}
use kody_celld.Gateway.Ask.{
  authorize_ref, entry_of_package, or_throw, or_ref, item_of, check_again, ask_provider, item_for,
}
use kody_celld.Gateway.Steps.{Kept, Quiet, Quiet-then, Any}
use kody_celld.Providers.Defs.{Binding, CachedValue, SavedPackage, ProviderCell}
use kody_celld.Providers.Store.{cache_put, cache_get, get_binding, permits}
use kody_celld.Providers.Cached.{
  cache_put-SameRights, cache_put-none, cache_put-read, cache_get-none,
}
use kody_celld.Providers.Cell.{canonical_of, Authorized, authorized, package_get}
use kody_celld.Gateway.Rights.{IsAuthorized, authorize_ref-Quiet, SameRights-trans}

module _ (host : GatewayHost) where
  or_throw-Quiet :
      {A : Type 0} (e : GatewayError) (o : Option A) (s t : GatewayState)
      → Kept host s t
      → Quiet host s Any (or_throw host {A = A} e o t)
  or_throw-Quiet e none s t h = h
  or_throw-Quiet e (some a) s t h = (h, tt)

  entry-Quiet :
      (pkg : Option SavedPackage) (s t : GatewayState)
      → Kept host s t
      → Quiet host s Any (entry_of_package host pkg t)
  entry-Quiet none s t h = h
  entry-Quiet (some pkg) s t h = elim (Option-cases pkg.secret_provider) [
    | inl missing ↦ rw missing h
    | inr (provider, e) ↦ rw e (h, tt)
  ]

  -- The provider is bound, and its binding lets the package read the item under its own name.
  abbrev pub IsItemLet : GatewayState → (provider : Text) → CachedValue → Type 0
  IsItemLet s provider item =
      (b : Binding) × (get_binding provider s.cell ≡ some b)
      × (permits b item.canonical_ref host.package_name s.cell ≡ true)

  -- What the cache holds under a name has that name, or it holds nothing.
  abbrev KnowsName : (provider canonical : Text) (now : ℕ) → ProviderCell → Type 0
  KnowsName provider canonical now cell =
      canonical_of (cache_get provider canonical now cell).0 canonical ≡ canonical

  strict-Let :
      (provider : Text) (item : CachedValue) (now : ℕ) (s t : GatewayState) (again : Authorized)
      → KnowsName provider item.canonical_ref now t.cell
      → IsAuthorized host s t provider item.canonical_ref true now again
      → IsItemLet s provider item
  strict-Let provider item now s t (authorized b cached provisional) known (inl (held, read)) = (
    b,
    held.0,
    subst (λ c. permits b c host.package_name s.cell ≡ true)
        (ap (λ c. canonical_of c item.canonical_ref) read ∙ known) held.1,
  )
  strict-Let provider item now s t (authorized b cached provisional) known (inr learning) =
      absurd (cc (learning.1))

  check_again-Quiet :
      (provider ref : Text) (item : CachedValue) (binding : Binding) (provisional : Bool) (now : ℕ)
      (s t t0 : GatewayState)
      → Kept host s t
      → KnowsName provider item.canonical_ref now t.cell
      → IsAuthorized host s t0 provider ref false now (authorized binding none provisional)
      → Quiet host s
          (λ u. IsItemLet s provider item)
          (check_again host provider ref item.canonical_ref provisional now t)
  check_again-Quiet provider ref item binding provisional now s t t0 h known auth =
      elim (Bool-cases (provisional || not (same item.canonical_ref ref))) [
        | inl t' ↦ rw t' (
            Quiet-then host s (IsAuthorized host s t provider item.canonical_ref true now)
              (λ u. IsItemLet s provider item)
              (authorize_ref host provider item.canonical_ref true now t) _
              (authorize_ref-Quiet host provider item.canonical_ref true now s t h)
              (λ again u h1 held. (h1, strict-Let provider item now s t again known held)))
        | inr f ↦
            let sure : provisional ≡ false = ground (arith, f) in
            let own : same item.canonical_ref ref ≡ true = ground (arith, f) in
            rw f (
              h,
              elim auth [
                | inl let_in ↦ (
                  binding,
                  let_in.0.0,
                  subst (λ c. permits binding c host.package_name s.cell ≡ true)
                      (sym (same→eq item.canonical_ref ref own)) (let_in.0.1),
                )
                | inr learning ↦ absurd (cc (sure, learning.0))
              ],
            )
      ]

  -- The provider's answer as it was cached.
  knows_put :
      (provider ref value : Text) (hosts : List Text) (canonical : Text) (now : ℕ)
      (s t : GatewayState)
      → (host.cache_ttl_ms ≡ 0 → s.cell.cache ≡ [])
      → Kept host s t
      → KnowsName provider canonical now
          (cache_put provider ref value hosts canonical host.cache_ttl_ms now t.cell)
  knows_put provider ref value hosts canonical now s t clean h =
      elim (Bool-cases (leb 1 host.cache_ttl_ms)) [
        | inl on ↦
            let (cached, read, name) =
              cache_put-read provider ref value hosts canonical host.cache_ttl_ms now t.cell
                (ground (arith, on)) in
            ap (λ c. canonical_of c canonical) read ∙ name
        | inr off ↦
            let none_kept : host.cache_ttl_ms ≡ 0 = ground (arith, off) in
            ap (λ c. canonical_of (cache_get provider canonical now c).0 canonical)
              (cache_put-none provider ref value hosts canonical host.cache_ttl_ms now t.cell
                none_kept)
            ∙ ap (λ c. canonical_of c canonical)
                (cache_get-none provider canonical now t.cell (h.3 none_kept (clean none_kept)))
      ]

  after_put :
      (provider ref value : Text) (hosts : List Text) (canonical : Text) (now : ℕ)
      (s t : GatewayState)
      → Kept host s t
      → Kept host s (record t {
        cell = cache_put provider ref value hosts canonical host.cache_ttl_ms now t.cell;
      })
  after_put provider ref value hosts canonical now s t h = (
    h.0,
    h.1,
    SameRights-trans host s.cell t.cell
        (cache_put provider ref value hosts canonical host.cache_ttl_ms now t.cell) h.2
        (cache_put-SameRights provider ref value hosts canonical host.cache_ttl_ms now t.cell),
    λ off clean.
        ap (λ (c : ProviderCell). c.cache)
          (cache_put-none provider ref value hosts canonical host.cache_ttl_ms now t.cell off)
        ∙ h.3 off clean,
  )

  ask_provider-Quiet :
      (provider ref : Text) (binding : Binding) (provisional : Bool) (now : ℕ)
      (s t t0 : GatewayState)
      → (host.cache_ttl_ms ≡ 0 → s.cell.cache ≡ [])
      → Kept host s t
      → IsAuthorized host s t0 provider ref false now (authorized binding none provisional)
      → Quiet host s
          (IsItemLet s provider)
          (ask_provider host provider ref binding provisional now t)
  unfolding ask_provider
  ask_provider-Quiet provider ref binding provisional now s t t0 clean h auth =
      Quiet-then host s Any (IsItemLet s provider)
        (entry_of_package host (package_get binding.package_name t.cell) t) _
        (entry-Quiet (package_get binding.package_name t.cell) s t h)
        (λ entry t1 h1 p1.
          Quiet-then host s Any (IsItemLet s provider)
            (or_throw host secret_provider_failed (host.run_provider binding entry ref) t1) _
            (or_throw-Quiet secret_provider_failed (host.run_provider binding entry ref) s t1 h1)
            (λ result t2 h2 p2.
              Quiet-then host s Any (IsItemLet s provider)
                (or_throw host secret_provider_invalid_result
                  (parse_provider_result host.store.platform result) t2)
                _
                (or_throw-Quiet secret_provider_invalid_result
                  (parse_provider_result host.store.platform result) s t2 h2)
                (λ parsed t3 h3 p3.
                  Quiet-then host s (λ u. IsItemLet s provider (item_of host parsed ref))
                    (IsItemLet s provider)
                    (check_again host provider ref (or_ref host parsed.canonical_ref ref)
                      provisional now
                      (record t3 {
                        cell =
                            cache_put provider ref parsed.value parsed.hosts
                              (or_ref host parsed.canonical_ref ref) host.cache_ttl_ms now t3.cell;
                      }))
                    _
                    (check_again-Quiet provider ref (item_of host parsed ref) binding provisional
                      now s
                      (record t3 {
                        cell =
                            cache_put provider ref parsed.value parsed.hosts
                              (or_ref host parsed.canonical_ref ref) host.cache_ttl_ms now t3.cell;
                      })
                      t0
                      (after_put provider ref parsed.value parsed.hosts
                        (or_ref host parsed.canonical_ref ref) now s t3 h3)
                      (knows_put provider ref parsed.value parsed.hosts
                        (or_ref host parsed.canonical_ref ref) now s t3 clean h3)
                      auth)
                    (λ u t4 h4 held. (h4, held)))))

  pub item_for-Quiet :
      (provider ref : Text) (auth : Authorized) (now : ℕ) (s t t0 : GatewayState)
      → (host.cache_ttl_ms ≡ 0 → s.cell.cache ≡ [])
      → Kept host s t
      → IsAuthorized host s t0 provider ref false now auth
      → Quiet host s (IsItemLet s provider) (item_for host provider ref auth now t)
  item_for-Quiet provider ref (authorized b none provisional) now s t t0 clean h held =
      ask_provider-Quiet provider ref b provisional now s t t0 clean h held
  item_for-Quiet provider ref (authorized b (some item) provisional) now s t t0 clean h held = (
    h,
    elim held [
      | inl let_in ↦ (b, let_in.0.0, let_in.0.1)
      | inr learning ↦ absurd (cc (learning.2))
    ],
  )
