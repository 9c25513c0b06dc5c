-- ===== src/Gateway/Rights.antt =====
-- What the bindings and grants allow while the gateway asks a cell.
use kody_celld.Prelude.{
  ℕ, Bool, true, false, Option, none, some, Text, ◌≡◌, ◌⊎◌, inl, inr, refl, sym, ap, ◌∙◌,
}
use kody_celld.Act.{Result, ok, err}
use kody_celld.Gateway.State.{GatewayState, GatewayHost}
use kody_celld.Gateway.Ask.{in_cell, authorize_ref}
use kody_celld.Gateway.Steps.{Kept, Quiet}
use kody_celld.Providers.Defs.{has_provider_id, is_grant_row, Binding, CachedValue, ProviderCell}
use kody_celld.Table.{find, exists}
use kody_celld.Providers.Store.{cache_get, get_binding, permits, permits_package, is_granted}
use kody_celld.Providers.Cached.{SameRights, IsReading, secret_provider_authorize-IsReading}
use kody_celld.Providers.Cell.{
  canonical_of, Authorized, authorized, AuthorizeError, secret_provider_authorize,
}
use kody_celld.Providers.Permits.{authorized_lem}

module _ (host : GatewayHost) where
  -- The binding lets the package read the item, by the bindings and grants at hand.
  abbrev pub IsLet : GatewayState → (provider asked : Text) → Binding → Option CachedValue → Type 0
  IsLet s provider asked b cached =
      (get_binding provider s.cell ≡ some b)
      × (permits b (canonical_of cached asked) host.package_name s.cell ≡ true)

  -- What an authorization at `t` says, with what the cache held then.
  abbrev pub IsAuthorized :
      (s t : GatewayState) (provider asked : Text) (strict : Bool) (now : ℕ) → Authorized → Type 0
  IsAuthorized s t provider asked strict now (authorized b cached provisional) =
      (IsLet s provider asked b cached × (cached ≡ (cache_get provider asked now t.cell).0))
      ⊎ ((provisional ≡ true) × (strict ≡ false) × (cached ≡ none))

  same_binding :
      (s t : ProviderCell) (provider : Text)
      → SameRights s t
      → get_binding provider t ≡ get_binding provider s
  unfolding get_binding
  same_binding s t provider h = ap (find (has_provider_id provider)) h.0

  same_permits :
      (s t : ProviderCell) (b : Binding) (canonical : Text)
      → SameRights s t
      → permits b canonical host.package_name t ≡ permits b canonical host.package_name s
  unfolding permits is_granted
  same_permits s t b canonical h = by_lock b.locked host.package_name
    where
      by_lock :
          (locked : Bool) (package_name : Option Text)
          → permits_package locked b.provider_id canonical package_name t
            ≡ permits_package locked b.provider_id canonical package_name s
      by_lock false package_name = refl
      by_lock true none = refl
      by_lock true (some name) = ap (exists (is_grant_row b.provider_id canonical name)) h.1

  pub SameRights-trans : (s t u : ProviderCell) → SameRights s t → SameRights t u → SameRights s u
  SameRights-trans s t u h k = (k.0 ∙ h.0, k.1 ∙ h.1)

  with_cell :
      (s t : GatewayState) (u : ProviderCell)
      → IsReading t.cell u
      → Kept host s t
      → Kept host s (record t { cell = u })
  with_cell s t u k h =
      (h.0, h.1, SameRights-trans s.cell t.cell u h.2 k.0, λ off clean. k.1 (h.3 off clean))

  in_cell-Quiet :
      (provider asked : Text) (strict : Bool) (now : ℕ) (s t : GatewayState)
      (r : Result AuthorizeError Authorized × ProviderCell)
      → secret_provider_authorize provider asked host.package_name strict now t.cell ≡ r
      → IsReading t.cell r.1
      → Kept host s t
      → Quiet host s (IsAuthorized s t provider asked strict now) (in_cell host r t)
  in_cell-Quiet provider asked strict now s t (err e, u) eq k h = with_cell s t u k h
  in_cell-Quiet provider asked strict now s t (ok (authorized b cached provisional), u) eq k h = (
    with_cell s t u k h,
    elim (authorized_lem provider asked host.package_name strict now t.cell u b cached provisional
        eq) [
          | inl let_in ↦
              let rights = SameRights-trans s.cell t.cell u h.2 k.0 in
              inl (
                (
                  sym (same_binding s.cell t.cell provider h.2) ∙ let_in.0,
                  sym (same_permits s.cell u b (canonical_of cached asked) rights) ∙ let_in.1,
                ),
                let_in.2,
              )
          | inr learning ↦ inr learning
        ],
  )

  pub authorize_ref-Quiet :
      (provider asked : Text) (strict : Bool) (now : ℕ) (s t : GatewayState)
      → Kept host s t
      → Quiet host s
          (IsAuthorized s t provider asked strict now)
          (authorize_ref host provider asked strict now t)
  unfolding authorize_ref
  authorize_ref-Quiet provider asked strict now s t h =
      in_cell-Quiet provider asked strict now s t
        (secret_provider_authorize provider asked host.package_name strict now t.cell) refl
        (secret_provider_authorize-IsReading provider asked host.package_name strict now t.cell) h
