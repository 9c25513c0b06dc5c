-- ===== src/Providers/Packages.antt =====
-- A package that is saved or deleted: its bindings.
use kody_celld.Prelude.{
  Bool, true, false, ◌&&◌, Option, none, some, List, [], ◌∷◌, ◌≡◌, ◌≢◌, refl, arith, Text, same,
  same_refl, same_sym, same→eq, All, All-weaken, Bool-cases, inl, inr,
}
use kody_celld.Table.{select, delete, update, exists}
use kody_celld.Table.Laws.{exists-delete_kept}
use kody_celld.Table.Counts.{exists-select}
use kody_celld.Table.Pairs.{AllPairs, AllPairs-delete}
use kody_celld.Providers.Defs.{
  Binding, ProviderExport, SavedPackage, ProviderCell, has_provider_id, has_package_name,
}
use kody_celld.Providers.Store.{invalidate, unbind, unbind_all, unbind_package, is_served_by}
use kody_celld.Providers.Cell.{
  package_get, package_saved, package_deleted, is_package_secret, write_package, settle_bindings,
}
use kody_celld.Providers.Unbound.{IsServed, IsBound, Differ, IsSound, All-kept, serves, has_export}

-- What unbinding keeps, whatever is known of each binding.
record Holds (P : Binding → Type 0) (s : ProviderCell) : Type 0 where
  unique : AllPairs Differ s.bindings
  each : All P s.bindings
  granted : All (IsBound s.bindings) s.grants

-- One of the rows is still to be unbound, where the package serves the binding.
abbrev IsListed : (name : Text) → List Binding → Binding → Type 0
IsListed name rows b =
    is_served_by name b ≡ true → exists (has_provider_id b.provider_id) rows ≡ true

abbrev Both : (P Q : Binding → Type 0) → Binding → Type 0
Both P Q b = P b × Q b

-- What was not deleted is listed further on.
All-IsListed :
    (P : Binding → Type 0) (name : Text) (r : Binding) (rows bindings : List Binding)
    → All (Both P (IsListed name (r ∷ rows))) bindings
    → All (Both P (IsListed name rows)) (delete (has_provider_id r.provider_id) bindings)
unfolding delete exists
All-IsListed P name r rows [] h = tt
All-IsListed P name r rows (b ∷ bindings) h = elim (Bool-cases (has_provider_id r.provider_id b)) [
  | inl t ↦ rw t (All-IsListed P name r rows bindings h.1)
  | inr f ↦
      let other : same r.provider_id b.provider_id ≡ false =
        rw (same_sym r.provider_id b.provider_id) f in
      rw f (
        (h.0.0, λ e. let listed = h.0.1 e in rw other at listed),
        All-IsListed P name r rows bindings h.1,
      )
]

unbind_all-Holds :
    (P : Binding → Type 0) (name : Text) (rows : List Binding) (s : ProviderCell)
    → Holds (Both P (IsListed name rows)) s
    → Holds (Both P (IsListed name [])) (unbind_all rows s)
unfolding unbind_all
unbind_all-Holds P name [] s h = h
unbind_all-Holds P name (r ∷ rows) s h = unbind_all-Holds P name rows (unbind r.provider_id s) (
    unfold unbind in
    record {
      unique = AllPairs-delete Differ (has_provider_id r.provider_id) s.bindings h.unique;
      each = All-IsListed P name r rows s.bindings h.each;
      granted = All-kept r.provider_id s.bindings s.grants h.granted;
    })

All-self :
    (name : Text) (rows : List Binding)
    → All
        (λ b.
          is_served_by name b ≡ true
          → exists (λ r. is_served_by name r && has_provider_id b.provider_id r) rows ≡ true)
        rows
unfolding exists
All-self name [] = tt
All-self name (b ∷ rows) = (
  λ e. rw (e, same_refl b.provider_id) refl,
  All-weaken _ _ rows (λ x h e. ground (arith, h e)) (All-self name rows),
)

All-select :
    (name : Text) (bindings : List Binding)
    → All (IsListed name (select (is_served_by name) bindings)) bindings
All-select name bindings =
    All-weaken _ _ bindings
      (λ b h e.
        rw (exists-select (is_served_by name) (has_provider_id b.provider_id) bindings) (h e))
      (All-self name bindings)

All-Both :
    (P Q : Binding → Type 0) (bindings : List Binding)
    → All P bindings
    → All Q bindings
    → All (Both P Q) bindings
All-Both P Q [] h k = tt
All-Both P Q (b ∷ bindings) h k = ((h.0, k.0), All-Both P Q bindings h.1 k.1)

-- Served, but for the bindings of one package.
abbrev IsServedBut : (name : Text) → List SavedPackage → Binding → Type 0
IsServedBut name packages b = is_served_by name b ≡ false → IsServed packages b

unbind_all-packages :
    (rows : List Binding) (s : ProviderCell) → (unbind_all rows s).packages ≡ s.packages
unfolding unbind_all unbind
unbind_all-packages [] s = refl
unbind_all-packages (r ∷ rows) s = unbind_all-packages rows (unbind r.provider_id s)

none_listed : (name : Text) (b : Binding) → IsListed name [] b → is_served_by name b ≢ true
unfolding exists
none_listed name b h t = absurd (cc (h t))

unbind_package-IsSound :
    (name : Text) (s : ProviderCell)
    → AllPairs Differ s.bindings
    → All (IsServedBut name s.packages) s.bindings
    → All (IsBound s.bindings) s.grants
    → IsSound (unbind_package name s)
unfolding unbind_package
unbind_package-IsSound name s unique served granted =
    let rows = select (is_served_by name) s.bindings in
    let h = unbind_all-Holds (IsServedBut name s.packages) name rows s (record {
      unique = unique;
      each =
          All-Both (IsServedBut name s.packages) (IsListed name rows) s.bindings served
            (All-select name s.bindings);
      granted = granted;
    }) in
    record {
      unique = h.unique;
      served = rw (unbind_all-packages rows s) (
          All-weaken _ _ (unbind_all rows s).bindings
            (λ b k. elim (Bool-cases (is_served_by name b)) [
              | inl t ↦ absurd (none_listed name b k.1 t)
              | inr f ↦ k.0 f
            ])
            h.each);
      granted = h.granted;
    }

exists-update :
    (test hit : SavedPackage → Bool) (change : SavedPackage → SavedPackage)
    (rows : List SavedPackage)
    → ((r : SavedPackage) → test r ≡ true → hit r ≡ true → test (change r) ≡ true)
    → exists test rows ≡ true
    → exists test (update hit change rows) ≡ true
unfolding exists update
exists-update test hit change [] keep h = h
exists-update test hit change (r ∷ rows) keep h =
    ground (arith, keep r, exists-update test hit change rows keep)

-- A package of another name serves what it served.
write_package-other :
    (pkg : SavedPackage) (existing : Option SavedPackage) (rows : List SavedPackage) (b : Binding)
    → is_served_by pkg.name b ≡ false
    → IsServed rows b
    → IsServed (write_package existing pkg rows) b
write_package-other pkg none rows b other h = unfold exists in ground (arith, h)
write_package-other pkg (some existing) rows b other h =
    exists-update (serves b.package_name) (has_package_name pkg.name)
      (λ row. record row { secret_provider = pkg.secret_provider }) rows
      (λ r t hit.
        let name : r.name ≡ pkg.name = same→eq r.name pkg.name hit in
        let served : same r.name b.package_name ≡ true = ground (arith, t) in
        let e : r.name ≡ b.package_name = same→eq r.name b.package_name served in
        let clash : same b.package_name pkg.name ≡ true = rw (← e) hit in
        absurd (cc (clash, other)))
      h

-- A package that declares a provider serves all its bindings.
write_package-some :
    (pkg : SavedPackage) (existing : Option SavedPackage) (rows : List SavedPackage) (b : Binding)
    → has_export pkg.secret_provider ≡ true
    → IsServed rows b
    → IsServed (write_package existing pkg rows) b
write_package-some pkg none rows b e h = unfold exists in ground (arith, h)
write_package-some pkg (some existing) rows b e h =
    exists-update (serves b.package_name) (has_package_name pkg.name)
      (λ row. record row { secret_provider = pkg.secret_provider }) rows
      (λ r t hit.
        let served : same r.name b.package_name ≡ true = ground (arith, t) in rw (served, e) refl)
      h

pub package_deleted-IsSound :
    (name : Text) (s : ProviderCell) → IsSound s → IsSound (package_deleted name s)
unfolding package_deleted
package_deleted-IsSound name s h =
    unbind_package-IsSound name
      (record s {
        packages = delete (has_package_name name) s.packages;
        secrets = delete (is_package_secret name) s.secrets;
      })
      h.unique
      (All-weaken (IsServed s.packages) _ s.bindings
        (λ b k other.
          exists-delete_kept (serves b.package_name) (has_package_name name) s.packages
            (λ r t.
              let served : same r.name b.package_name ≡ true = ground (arith, t) in
              let e : r.name ≡ b.package_name = same→eq r.name b.package_name served in rw e other)
            k)
        h.served)
      h.granted

settle-IsSound :
    (pkg : SavedPackage) (provider : Option ProviderExport) (s : ProviderCell)
    → provider ≡ pkg.secret_provider
    → IsSound s
    → IsSound (
        settle_bindings provider pkg.name
          (record s { packages = write_package (package_get pkg.name s) pkg s.packages }))
settle-IsSound pkg none s e h =
    unbind_package-IsSound pkg.name
      (record s { packages = write_package (package_get pkg.name s) pkg s.packages }) h.unique
      (All-weaken (IsServed s.packages) _ s.bindings
        (λ b k other. write_package-other pkg (package_get pkg.name s) s.packages b other k)
        h.served)
      h.granted
settle-IsSound pkg (some provider) s e h =
    unfold invalidate in
    record {
      unique = h.unique;
      served =
          All-weaken (IsServed s.packages) _ s.bindings
            (λ b k. write_package-some pkg (package_get pkg.name s) s.packages b (rw (← e) refl) k)
            h.served;
      granted = h.granted;
    }

pub package_saved-IsSound :
    (pkg : SavedPackage) (s : ProviderCell) → IsSound s → IsSound (package_saved pkg s)
unfolding package_saved
package_saved-IsSound pkg s h = settle-IsSound pkg pkg.secret_provider s refl h
