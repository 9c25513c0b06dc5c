-- ===== src/Gateway/Steps.antt =====
-- What the steps of the gateway leave alone, and what they establish where they return.
use kody_celld.Prelude.{
  ℕ, Bool, true, false, List, [], ◌∷◌, Text, ◌≡◌, ◌⊎◌, inl, inr, refl, All, Bool-cases, length, sym,
  subst, ◌∙◌, ◌++◌,
}
use kody_celld.Act.{Act, Result, ok, err, then_do, require}
use kody_celld.Crypto.Keyring.{KeyError}
use kody_celld.Gateway.Placeholders.{ReferencedIntegrationToken}
use kody_celld.Gateway.Replace.{Collected}
use kody_celld.Gateway.State.{
  GatewayError, secret_host_not_approved, secret_not_found, GatewayState, GatewayHost,
}
use kody_celld.Gateway.Inject.{
  Replacements, secret_names_of, is_empty_list, inject_secrets, resolve_secrets, readable,
  no_missing, secret_refs, basic_refs, resolve_token, in_integrations, token_of, add_token,
  inject_integrations,
}
use kody_celld.Secrets.Resolve.{SecretRef, secret_resolve_values}
use kody_celld.Integrations.Defs.{
  IntegrationConfig, IntegrationError, IntegrationRow, IntegrationStore,
}
use kody_celld.Integrations.Tokens.{Drawn, Resolution, resolved, refused, token_resolve}
use kody_celld.Integrations.Guarded.{IsPermitted, token-IsGuarded}
use kody_celld.Integrations.Policies.{policies, token_resolve-policies, same_policies-find}
use kody_celld.Integrations.Store.{row_of}
use kody_celld.Integrations.Requests.{usage_permits}
use kody_celld.Gateway.Policy.{is_host_approved}
use kody_celld.Providers.Cached.{SameRights}

-- Nothing is sent; the configs of the integrations, the bindings and the grants are those of the
-- other state, and where nothing is cached for any time, a cache that was empty is.
abbrev pub Kept : GatewayHost → (s t : GatewayState) → Type 0
Kept host s t =
    (t.sent ≡ s.sent)
    × (policies t.integrations ≡ policies s.integrations)
    × SameRights s.cell t.cell
    × (host.cache_ttl_ms ≡ 0 → s.cell.cache ≡ [] → t.cell.cache ≡ [])

-- The state is kept, and a value that is returned is such.
abbrev pub Quiet :
    {A : Type 0}
    → GatewayHost
    → GatewayState
    → (A → Type 0)
    → Result GatewayError A × GatewayState
    → Type 0
Quiet host s Q (ok a, t) = Kept host s t × Q a
Quiet host s Q (err e, t) = Kept host s t

pub Quiet-then :
    {A B : Type 0} (host : GatewayHost) (s : GatewayState) (P : A → Type 0) (Q : B → Type 0)
    (r : Result GatewayError A × GatewayState) (f : A → Act GatewayState GatewayError B)
    → Quiet host s P r
    → ((a : A) (t : GatewayState) → Kept host s t → P a → Quiet host s Q (f a t))
    → Quiet host s Q (then_do r f)
Quiet-then host s P Q (ok a, t) f h k = k a t h.0 h.1
Quiet-then host s P Q (err e, t) f h k = h

pub weaken :
    {A : Type 0} (host : GatewayHost) (s : GatewayState) (P Q : A → Type 0)
    (r : Result GatewayError A × GatewayState)
    → ((a : A) → P a → Q a)
    → Quiet host s P r
    → Quiet host s Q r
weaken host s P Q (ok a, t) f h = (h.0, f a h.1)
weaken host s P Q (err e, t) f h = h

abbrev pub Any : {A : Type 0} → A → Type 0
Any a = Unit

readable-Quiet :
    {A : Type 0} (host : GatewayHost) (r : Result KeyError A) (s t : GatewayState)
    → Kept host s t
    → Quiet host s Any (readable host r t)
readable-Quiet host (ok a) s t h = (h, tt)
readable-Quiet host (err e) s t h = h

no_missing-Quiet :
    (host : GatewayHost) (missing : List Text) (e : GatewayError) (s t : GatewayState)
    → Kept host s t
    → Quiet host s Any (no_missing host missing e t)
no_missing-Quiet host [] e s t h = (h, tt)
no_missing-Quiet host (m ∷ ms) e s t h = h

pub require-Quiet :
    (host : GatewayHost) (b : Bool) (e : GatewayError) (s t : GatewayState)
    → Kept host s t
    → Quiet host s (λ u. b ≡ true) (require b e t)
require-Quiet host true e s t h = (h, refl)
require-Quiet host false e s t h = h

module _ (host : GatewayHost) where
  resolve_secrets-Quiet :
      (refs : List SecretRef) (s t : GatewayState)
      → Kept host s t
      → Quiet host s Any (resolve_secrets host refs t)
  resolve_secrets-Quiet refs s t h =
      Quiet-then host s Any Any
        (readable host
          (secret_resolve_values host.store.platform.crypto host.store.keyring host.store.user_id
            refs host.package_name t.cell.secrets)
          t)
        _ (readable-Quiet host _ s t h)
        (λ found u h1 p.
          Quiet-then host s Any Any (no_missing host found.missing secret_not_found u) _
            (no_missing-Quiet host found.missing secret_not_found s u h1) (λ v w h2 q. (h2, tt)))

  names-empty : (names : List Text) → is_empty_list host names ≡ true → names ≡ []
  names-empty [] h = refl
  names-empty (n ∷ ns) h = cc

  -- A secret is named only where the host is approved.
  abbrev pub IsSecretSafe : Collected → (host_approved : Bool) → Type 0
  IsSecretSafe c host_approved = (secret_names_of c ≡ []) ⊎ (host_approved ≡ true)

  pub inject_secrets-Quiet :
      (c : Collected) (host_approved : Bool) (rs : Replacements) (s t : GatewayState)
      → Kept host s t
      → Quiet host s
          (λ rs'. IsSecretSafe c host_approved)
          (inject_secrets host c host_approved rs t)
  unfolding inject_secrets
  inject_secrets-Quiet c host_approved rs s t h =
      elim (Bool-cases (is_empty_list host (secret_names_of c))) [
        | inl none_named ↦ rw none_named (h, inl (names-empty (secret_names_of c) none_named))
        | inr named ↦ rw named (
            Quiet-then host s (λ u. host_approved ≡ true) (λ rs'. IsSecretSafe c host_approved)
              (require host_approved secret_host_not_approved t) _
              (require-Quiet host host_approved secret_host_not_approved s t h)
              (λ u t1 h1 approved.
                Quiet-then host s Any (λ rs'. IsSecretSafe c host_approved)
                  (resolve_secrets host (secret_refs c.secrets ++ basic_refs c.basic) t1) _
                  (resolve_secrets-Quiet (secret_refs c.secrets ++ basic_refs c.basic) s t1 h1)
                  (λ values t2 h2 q. (h2, inr approved))))
      ]

  -- The integration that has the name permits the package and the host.
  abbrev pub IsTokenSafe : GatewayState → (request_host name : Text) → Type 0
  IsTokenSafe s request_host name =
      (row : IntegrationRow) × IsPermitted host.store name host.package_name request_host
        s.integrations row

  -- It does so at any time of the request.
  earlier-IsTokenSafe :
      (s t : GatewayState) (request_host name : Text)
      → policies t.integrations ≡ policies s.integrations
      → IsTokenSafe t request_host name
      → IsTokenSafe s request_host name
  unfolding row_of
  earlier-IsTokenSafe s t request_host name e (row, (here, usable, near)) =
      let (row', there, config) =
        same_policies-find name t.integrations.integrations s.integrations.integrations row e
          here in
      (
        row',
        (
          there,
          subst (λ (c : IntegrationConfig). usage_permits c.usage host.package_name ≡ true)
              (sym config) usable,
          subst (λ (c : IntegrationConfig). is_host_approved request_host c.allowed_hosts ≡ true)
              (sym config) near,
        ),
      )

  with_integrations :
      (s t : GatewayState) (u : IntegrationStore)
      → policies u ≡ policies t.integrations
      → Kept host s t
      → Kept host s (record t { integrations = u })
  with_integrations s t u k h = (h.0, k ∙ h.1, h.2, h.3)

  answer-Quiet :
      (name request_host : Text) (force_refresh : Bool) (drawn : Drawn) (now : ℕ)
      (s t : GatewayState) (r : Result IntegrationError Resolution × IntegrationStore)
      → token_resolve host.store name host.package_name request_host force_refresh drawn now
          t.integrations
        ≡ r
      → policies r.1 ≡ policies t.integrations
      → Kept host s t
      → Quiet host s
          (λ token. IsTokenSafe s request_host name)
          (then_do (in_integrations host r t) (token_of host))
  answer-Quiet name request_host force_refresh drawn now s t (ok (resolved token row fresh), u) e k
        h =
      let held =
        token-IsGuarded host.store name host.package_name request_host force_refresh drawn now
          t.integrations u token row fresh e in
      (
        with_integrations s t u k h,
        earlier-IsTokenSafe s t request_host name (h.1) (held.0, held.1),
      )
  answer-Quiet name request_host force_refresh drawn now s t (ok (refused e row), u) eq k h =
      with_integrations s t u k h
  answer-Quiet name request_host force_refresh drawn now s t (err e, u) eq k h =
      with_integrations s t u k h

  resolve_token-Quiet :
      (name request_host : Text) (force_refresh : Bool) (drawn : Drawn) (now : ℕ)
      (s t : GatewayState)
      → Kept host s t
      → Quiet host s
          (λ token. IsTokenSafe s request_host name)
          (resolve_token host name request_host force_refresh drawn now t)
  unfolding resolve_token
  resolve_token-Quiet name request_host force_refresh drawn now s t h =
      answer-Quiet name request_host force_refresh drawn now s t
        (token_resolve host.store name host.package_name request_host force_refresh drawn now
          t.integrations)
        refl
        (token_resolve-policies host.store name host.package_name request_host force_refresh drawn
          now t.integrations)
        h

  pub inject_integrations-Quiet :
      (request_host : Text) (force_refresh : Bool) (draw : ℕ → Drawn) (now : ℕ)
      (tokens : List ReferencedIntegrationToken) (names : List Text) (rs : Replacements)
      (s t : GatewayState)
      → Kept host s t
      → Quiet host s
          (λ rs'. All (IsTokenSafe s request_host) names)
          (inject_integrations host request_host force_refresh draw now tokens names rs t)
  unfolding inject_integrations
  inject_integrations-Quiet request_host force_refresh draw now tokens [] rs s t h = (h, tt)
  inject_integrations-Quiet request_host force_refresh draw now tokens (name ∷ names) rs s t h =
      Quiet-then host s (λ token. IsTokenSafe s request_host name)
        (λ rs'. All (IsTokenSafe s request_host) (name ∷ names))
        (resolve_token host name request_host force_refresh (draw (length names)) now t) _
        (resolve_token-Quiet name request_host force_refresh (draw (length names)) now s t h)
        (λ token u h1 safe.
          weaken host s (λ rs'. All (IsTokenSafe s request_host) names)
            (λ rs'. All (IsTokenSafe s request_host) (name ∷ names))
            (inject_integrations host request_host force_refresh draw now tokens names
              (add_token host name token tokens rs) u)
            (λ rs' later. (safe, later))
            (inject_integrations-Quiet request_host force_refresh draw now tokens names
              (add_token host name token tokens rs) s u h1))
