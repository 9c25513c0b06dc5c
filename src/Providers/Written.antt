-- ===== src/Providers/Written.antt =====
-- Bindings and grants as the methods write them.
use kody_celld.Prelude.{
  ℕ, Bool, true, Option, none, some, List, [], ◌∷◌, ◌≡◌, refl, ◌∙◌, arith, Text, same, same_sym,
  All, All-weaken, Bool-cases, inl, inr, Option-cases, ◌==◌,
}
use kody_celld.Table.{find, update, changed, exists, count_if}
use kody_celld.Table.Laws.{All-delete, All-update, find-none-All, exists_of_find}
use kody_celld.Table.Pairs.{AllPairs, AllPairs-update}
use kody_celld.Providers.Defs.{
  Binding, ProviderGrant, ProviderExport, SavedPackage, ProviderCell, has_provider_id, is_grant_for,
  is_grant_row, has_package_name,
}
use kody_celld.Providers.Store.{
  BindInput, get_binding, bind, rebind, new_binding, set_locked, set_locked_row, grant_row,
  revoke_grant, locked_of, grants_after, bind_over, is_granted,
}
use kody_celld.Providers.Cell.{declares_id, secret_provider_bind, secret_provider_grant, is_door}
use kody_celld.Providers.Unbound.{IsServed, IsBound, Differ, IsSound, serves, has_export}

-- An UPDATE of bindings that leaves their ids.
module _ (hit : Binding → Bool) (change : Binding → Binding)
    (keeps_id : (b : Binding) → (change b).provider_id ≡ b.provider_id) where
  changed_id : (b : Binding) → (changed hit change b).provider_id ≡ b.provider_id
  changed_id b = elim (Bool-cases (hit b)) [ inl t ↦ rw t (keeps_id b) | inr f ↦ rw f refl ]

  unique-update :
      (rows : List Binding) → AllPairs Differ rows → AllPairs Differ (update hit change rows)
  unique-update rows h =
      AllPairs-update Differ hit change (λ x y d. rw (changed_id x, changed_id y) d) rows h

  exists-update_id :
      (provider_id : Text) (rows : List Binding)
      → exists (has_provider_id provider_id) rows ≡ true
      → exists (has_provider_id provider_id) (update hit change rows) ≡ true
  unfolding exists update
  exists-update_id provider_id [] h = h
  exists-update_id provider_id (b ∷ rows) h =
      rw (changed_id b) (ground (arith, exists-update_id provider_id rows))

-- The package that a lookup finds serves, if it declares a provider.
serves_of_find :
    (name : Text) (rows : List SavedPackage) (pkg : SavedPackage)
    → find (has_package_name name) rows ≡ some pkg
    → has_export pkg.secret_provider ≡ true
    → exists (serves name) rows ≡ true
unfolding find exists
serves_of_find name [] pkg e d = cc
serves_of_find name (r ∷ rows) pkg e d = elim (Bool-cases (has_package_name name r)) [
  | inl t ↦ let same_row : r ≡ pkg = ground arith in rw (t, same_row, d) refl
  | inr f ↦ ground (arith, serves_of_find name rows pkg)
]

declares_id-export :
    (provider : Option ProviderExport) (provider_id : Text)
    → declares_id provider provider_id ≡ true
    → has_export provider ≡ true
declares_id-export none provider_id e = cc
declares_id-export (some provider) provider_id e = refl

bind_new-IsSound :
    (input : BindInput) (locked : Bool) (now : ℕ) (s : ProviderCell)
    → exists (serves input.package_name) s.packages ≡ true
    → find (has_provider_id input.provider_id) s.bindings ≡ none
    → IsSound s
    → IsSound (record s { bindings = new_binding input locked now ∷ s.bindings })
bind_new-IsSound input locked now s served missing h = record {
  unique = (
    All-weaken _ (Differ (new_binding input locked now)) s.bindings
        (λ b e. same_sym input.provider_id b.provider_id ∙ e)
        (find-none-All (has_provider_id input.provider_id) s.bindings missing),
    h.unique,
  );
  served = (served, h.served);
  granted =
      All-weaken (IsBound s.bindings) _ s.grants (λ g e. unfold exists in ground (arith, e))
        h.granted;
}

-- The write of a row of its own, where the grants are among those before.
rewrite-IsSound :
    (hit : Binding → Bool) (change : Binding → Binding) (grants : List ProviderGrant)
    (s : ProviderCell)
    → ((b : Binding) → (change b).provider_id ≡ b.provider_id)
    → ((b : Binding) → IsServed s.packages b → IsServed s.packages (changed hit change b))
    → All (IsBound s.bindings) grants
    → IsSound s
    → IsSound (record s { bindings = update hit change s.bindings; grants = grants })
rewrite-IsSound hit change grants s keeps_id serve bound h = record {
  unique = unique-update hit change keeps_id s.bindings h.unique;
  served = All-update (IsServed s.packages) hit change s.bindings serve h.served;
  granted =
      All-weaken (IsBound s.bindings) _ grants
        (λ g e. exists-update_id hit change keeps_id g.provider_id s.bindings e) bound;
}

bind_again-IsSound :
    (input : BindInput) (existing : Binding) (locked : Bool) (now : ℕ) (s : ProviderCell)
    → exists (serves input.package_name) s.packages ≡ true
    → IsSound s
    → IsSound (record s {
      bindings = update (has_provider_id input.provider_id) (rebind input locked now) s.bindings;
      grants = grants_after input (some existing) s.grants;
    })
bind_again-IsSound input existing locked now s served h =
    rewrite-IsSound (has_provider_id input.provider_id) (rebind input locked now)
      (grants_after input (some existing) s.grants) s (λ b. refl)
      (λ b e. elim (Bool-cases (has_provider_id input.provider_id b)) [
        | inl t ↦ rw t served
        | inr f ↦ rw f e
      ])
      (elim (Bool-cases (same existing.package_name input.package_name)) [
        | inl t ↦ rw t h.granted
        | inr f ↦
            rw f
              (All-delete (IsBound s.bindings) (is_grant_for input.provider_id) s.grants h.granted)
      ])
      h

bind_over-IsSound :
    (input : BindInput) (existing : Option Binding) (now : ℕ) (s : ProviderCell)
    → exists (serves input.package_name) s.packages ≡ true
    → find (has_provider_id input.provider_id) s.bindings ≡ existing
    → IsSound s
    → IsSound (bind_over input existing now s)
bind_over-IsSound input none now s served e h =
    bind_new-IsSound input (locked_of input.locked none) now s served e h
bind_over-IsSound input (some existing) now s served e h =
    bind_again-IsSound input existing (locked_of input.locked (some existing)) now s served h

bind-IsSound :
    (input : BindInput) (now : ℕ) (s : ProviderCell)
    → exists (serves input.package_name) s.packages ≡ true
    → IsSound s
    → IsSound (bind input now s)
unfolding bind
bind-IsSound input now s served h =
    let k =
      bind_over-IsSound input (get_binding input.provider_id s) now s served
        (unfold get_binding in refl) h in
    record { unique = k.unique; served = k.served; granted = k.granted }

pub secret_provider_bind-IsSound :
    (input : BindInput) (now : ℕ) (s : ProviderCell)
    → IsSound s
    → IsSound (secret_provider_bind input now s).1
unfolding secret_provider_bind
secret_provider_bind-IsSound input now s h =
    elim (Option-cases (find (has_package_name input.package_name) s.packages)) [
      | inl e ↦ rw e h
      | inr (pkg, e) ↦ elim (Bool-cases (declares_id pkg.secret_provider input.provider_id)) [
        | inr f ↦ rw (e, f) h
        | inl d ↦
            rw (e, d)
              (elim (Bool-cases
                (exists (is_door input.door_secret_name input.package_name) s.secrets)) [
                  | inr f ↦ rw f h
                  | inl t ↦ rw t (
                      bind-IsSound input now s
                        (serves_of_find input.package_name s.packages pkg e
                          (declares_id-export pkg.secret_provider input.provider_id d))
                        h)
                ])
      ]
    ]

pub set_locked-IsSound :
    (provider_id : Text) (locked : Bool) (now : ℕ) (s : ProviderCell)
    → IsSound s
    → IsSound (set_locked provider_id locked now s).1
unfolding set_locked
set_locked-IsSound provider_id locked now s h =
    let k =
      rewrite-IsSound (has_provider_id provider_id) (set_locked_row locked now) s.grants s
        (λ b. refl)
        (λ b e. elim (Bool-cases (has_provider_id provider_id b)) [
          | inl t ↦ rw t e
          | inr f ↦ rw f e
        ])
        h.granted h in
    elim (Bool-cases (count_if (has_provider_id provider_id) s.bindings == 0)) [
      | inl t ↦ rw t k
      | inr f ↦ rw f (record { unique = k.unique; served = k.served; granted = k.granted })
    ]

grant_row-IsSound :
    (provider_id canonical_ref package_name : Text) (now : ℕ) (s : ProviderCell)
    → exists (has_provider_id provider_id) s.bindings ≡ true
    → IsSound s
    → IsSound (grant_row provider_id canonical_ref package_name now s)
unfolding grant_row
grant_row-IsSound provider_id canonical_ref package_name now s bound h =
    elim (Bool-cases (is_granted provider_id canonical_ref package_name s)) [
      | inl t ↦ rw t h
      | inr f ↦ rw f (record { unique = h.unique; served = h.served; granted = (bound, h.granted) })
    ]

pub secret_provider_grant-IsSound :
    (provider_id canonical_ref package_name : Text) (now : ℕ) (s : ProviderCell)
    → IsSound s
    → IsSound (secret_provider_grant provider_id canonical_ref package_name now s).1
unfolding secret_provider_grant
secret_provider_grant-IsSound provider_id canonical_ref package_name now s h =
    elim (Option-cases (find (has_provider_id provider_id) s.bindings)) [
      | inl e ↦ rw e h
      | inr (binding, e) ↦ elim (Option-cases (find (has_package_name package_name) s.packages)) [
        | inl missing ↦ rw (e, missing) h
        | inr (pkg, found) ↦
            rw (e, found)
              (grant_row-IsSound provider_id canonical_ref package_name now s
                (exists_of_find (has_provider_id provider_id) s.bindings binding e) h)
      ]
    ]

pub revoke_grant-IsSound :
    (provider_id canonical_ref package_name : Text) (s : ProviderCell)
    → IsSound s
    → IsSound (revoke_grant provider_id canonical_ref package_name s)
unfolding revoke_grant
revoke_grant-IsSound provider_id canonical_ref package_name s h = record {
  unique = h.unique;
  served = h.served;
  granted =
      All-delete (IsBound s.bindings) (is_grant_row provider_id canonical_ref package_name) s.grants
        h.granted;
}
