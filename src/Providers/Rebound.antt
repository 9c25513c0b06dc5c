-- ===== src/Providers/Rebound.antt =====
-- A provider that another package takes over.
use kody_celld.Prelude.{
  ℕ, Bool, true, false, ◌&&◌, Option, none, some, List, [], ◌∷◌, ◌++◌, ◌≡◌, refl, ap, ◌∙◌, arith,
  Text, same, same_refl, same→eq, starts_with, Bool-cases, inl, inr, if◌then◌else◌,
}
use kody_celld.Table.{find, delete, exists}
use kody_celld.Table.Laws.{find-delete-none, find-update-some, test-find}
use kody_celld.Act.{Result, ok, err}
use kody_celld.Providers.Defs.{
  Binding, ProviderGrant, CachedValue, ProviderCell, has_provider_id, is_grant_for, is_grant_row,
  cache_key, has_cache_key, is_cached_for,
}
use kody_celld.Providers.Store.{
  BindInput, get_binding, bind, rebind, locked_of, permits, cache_get, fresh, is_granted,
}
use kody_celld.Providers.Cell.{
  AuthorizeError, not_granted, Authorized, authorized, secret_provider_authorize, check_permits,
  holds_some_grant, is_own_grant,
}

exists-delete-none {ℓ} :
    {A : Type ℓ} (test gone : A → Bool) (rows : List A)
    → ((r : A) → test r ≡ true → gone r ≡ true)
    → exists test (delete gone rows) ≡ false
unfolding exists delete
exists-delete-none test gone [] h = refl
exists-delete-none test gone (r ∷ rows) h = ground (arith, h r, exists-delete-none test gone rows h)

starts_with-key :
    (provider_id ref : Text) → starts_with (provider_id ++ 0 ∷ []) (provider_id ++ 0 ∷ ref) ≡ true
unfolding starts_with
starts_with-key [] ref = refl
starts_with-key (c ∷ cs) ref = ground (arith, starts_with-key cs ref)

-- After an invalidation nothing is cached of the provider.
uncached :
    (provider_id ref : Text) (entries : List (Text × CachedValue))
    → find (has_cache_key (cache_key provider_id ref)) (delete (is_cached_for provider_id) entries)
      ≡ none
uncached provider_id ref entries =
    find-delete-none (has_cache_key (cache_key provider_id ref)) (is_cached_for provider_id) entries
      (λ entry e.
        let key : entry.0 ≡ cache_key provider_id ref =
          same→eq entry.0 (cache_key provider_id ref) e in
        rw key (starts_with-key provider_id ref))

unread :
    (provider_id ref : Text) (now : ℕ) (s : ProviderCell) (entries : List (Text × CachedValue))
    → s.cache ≡ delete (is_cached_for provider_id) entries
    → cache_get provider_id ref now s ≡ (none, s)
unfolding cache_get
unread provider_id ref now s entries e =
    let missing : find (has_cache_key (cache_key provider_id ref)) s.cache ≡ none =
      rw e (uncached provider_id ref entries) in
    ap (λ found. fresh found (cache_key provider_id ref) now s) missing

-- Nothing is granted to anyone for a provider whose grants are deleted.
is_granted-none :
    (provider_id canonical_ref package_name : Text) (s : ProviderCell) (grants : List ProviderGrant)
    → s.grants ≡ delete (is_grant_for provider_id) grants
    → is_granted provider_id canonical_ref package_name s ≡ false
unfolding is_granted
is_granted-none provider_id canonical_ref package_name s grants e = rw e (
    exists-delete-none (is_grant_row provider_id canonical_ref package_name)
      (is_grant_for provider_id) grants (λ r t. ground (arith, t)))

holds-none :
    (provider_id : Text) (package_name : Option Text) (s : ProviderCell)
    (grants : List ProviderGrant)
    → s.grants ≡ delete (is_grant_for provider_id) grants
    → holds_some_grant provider_id package_name s ≡ false
holds-none provider_id none s grants e = refl
holds-none provider_id (some package_name) s grants e = rw e (
    exists-delete-none (λ g. is_grant_for provider_id g && is_own_grant package_name g)
      (is_grant_for provider_id) grants (λ r t. ground (arith, t)))

-- What is said of a binding where its provider has no grants and no cached values.
abbrev pub answer : Binding → Result AuthorizeError Authorized
answer binding = if binding.locked then err not_granted else ok (authorized binding none false)

permits-none :
    (binding : Binding) (ref : Text) (package_name : Option Text) (locked : Bool) (s : ProviderCell)
    (grants : List ProviderGrant)
    → s.grants ≡ delete (is_grant_for binding.provider_id) grants
    → binding.locked ≡ locked
    → permits binding ref package_name s ≡ (if locked then false else true)
unfolding permits
permits-none binding ref package_name false s grants e l = rw l refl
permits-none binding ref none true s grants e l = rw l refl
permits-none binding ref (some package_name) true s grants e l =
    rw l (is_granted-none binding.provider_id ref package_name s grants e)

answered :
    (b : Binding) (provider_id ref : Text) (package_name : Option Text) (strict locked : Bool)
    (s : ProviderCell) (grants : List ProviderGrant)
    → b.provider_id ≡ provider_id
    → b.locked ≡ locked
    → s.grants ≡ delete (is_grant_for provider_id) grants
    → (check_permits b (none, s) provider_id ref package_name strict).0 ≡ answer b
answered b provider_id ref package_name strict false s grants id l e =
    rw (permits-none b ref package_name false s grants (rw id e) l, l) refl
answered b provider_id ref package_name true true s grants id l e =
    rw (permits-none b ref package_name true s grants (rw id e) l, l) refl
answered b provider_id ref package_name false true s grants id l e =
    rw
      (
        permits-none b ref package_name true s grants (rw id e) l,
        l,
        holds-none provider_id package_name s grants e,
      )
      refl

module _ (input : BindInput) (existing : Binding) (now : ℕ) (s : ProviderCell)
    (bound : get_binding input.provider_id s ≡ some existing) where
  id_of_bound : existing.provider_id ≡ input.provider_id
  unfolding get_binding
  id_of_bound =
      same→eq existing.provider_id input.provider_id
        (test-find (has_provider_id input.provider_id) s.bindings existing bound)

  abbrev pub taken_over : Binding
  taken_over = rebind input (locked_of input.locked (some existing)) now existing

  get_binding-bind : get_binding input.provider_id (bind input now s) ≡ some taken_over
  unfolding bind get_binding
  get_binding-bind =
      let own : same existing.provider_id input.provider_id ≡ true =
        rw id_of_bound (same_refl input.provider_id) in
      let written =
        find-update-some (has_provider_id input.provider_id) (has_provider_id input.provider_id)
          (rebind input (locked_of input.locked (some existing)) now) s.bindings existing
          (λ b. elim (Bool-cases (has_provider_id input.provider_id b)) [
            | inl t ↦ rw t t
            | inr f ↦ rw f f
          ])
          bound in
      rw bound (written ∙ rw own refl)

  grants-bind :
      same existing.package_name input.package_name ≡ false
      → (bind input now s).grants ≡ delete (is_grant_for input.provider_id) s.grants
  unfolding bind
  grants-bind other = rw (bound, other) refl

  -- After a provider is bound again, to another package, nothing that was cached or granted of it
  -- counts any more: a locked binding answers no one, whatever was granted before, and an open one
  -- answers everyone without a value, so that the new package is asked.
  pub rebound :
      (now' : ℕ) (ref : Text) (package_name : Option Text) (strict : Bool)
      → same existing.package_name input.package_name ≡ false
      → (secret_provider_authorize input.provider_id ref package_name strict now'
          (bind input now s)).0
        ≡ answer taken_over
  unfolding secret_provider_authorize
  rebound now' ref package_name strict other =
      let empty : cache_get input.provider_id ref now' (bind input now s)
          ≡ (none, bind input now s) =
        unread input.provider_id ref now' (bind input now s) s.cache (unfold bind in refl) in
      rw (get_binding-bind, empty)
        (answered taken_over input.provider_id ref package_name strict taken_over.locked
          (bind input now s) s.grants id_of_bound refl (grants-bind other))
