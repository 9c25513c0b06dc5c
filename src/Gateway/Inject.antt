-- ===== src/Gateway/Inject.antt =====
-- The replacements that `FetchGateway.fetch` collects (src/secrets/fetch-gateway.ts).
use kody_celld.Prelude.{
  ℕ, Bool, true, false, ◌&&◌, List, [], ◌∷◌, ◌++◌, Text, codes, same, contains, map, length,
  if◌then◌else◌,
}
use kody_celld.Table.{exists, update}
use kody_celld.Act.{Result, ok, err, ◌>>=◌, ◌>>◌, pure, throw, gets, require}
use kody_celld.Crypto.Keyring.{KeyError}
use kody_celld.Secrets.Resolve.{SecretRef, secret_resolve_values}
use kody_celld.Gateway.Placeholders.{
  ReferencedSecret, ReferencedBasicAuthSecret, ReferencedIntegrationToken, ReferencedProviderSecret,
}
use kody_celld.Gateway.Replace.{Collected}
use kody_celld.Gateway.State.{
  GatewayError, secret_not_found, secret_host_not_approved, integration_refused, integration_thrown,
  unreadable_secret, GatewayHost, Gateway,
}
use kody_celld.Integrations.Defs.{IntegrationError, IntegrationStore}
use kody_celld.Integrations.Tokens.{Drawn, Resolution, resolved, refused, token_resolve}

-- A Map of placeholders, in the order in which they were first set.
abbrev pub Replacements : Type 0
Replacements = List (Text × Text)

abbrev pub is_for : (placeholder : Text) → Text × Text → Bool
is_for placeholder r = same r.0 placeholder

abbrev pub put_value : (value : Text) → Text × Text → Text × Text
put_value value r = (r.0, value)

unfoldable pub set_replacement : (placeholder value : Text) → Replacements → Replacements
set_replacement placeholder value rs =
    if exists (is_for placeholder) rs
    then update (is_for placeholder) (put_value value) rs
    else rs ++ (placeholder, value) ∷ []

-- `new Set(names)`
unfoldable pub distinct_from : (seen : List Text) → List Text → List Text
distinct_from seen [] = []
distinct_from seen (n ∷ ns) =
    let rest = distinct_from (n ∷ seen) ns in if contains n seen then rest else n ∷ rest

abbrev pub basic_names : List ReferencedBasicAuthSecret → List Text
basic_names [] = []
basic_names (b ∷ bs) = b.username ∷ b.password ∷ basic_names bs

abbrev pub secret_name : ReferencedSecret → Text
secret_name s = s.name

unfoldable pub secret_names_of : Collected → List Text
unfolding distinct_from
secret_names_of c = distinct_from [] (map secret_name c.secrets ++ basic_names c.basic)

abbrev pub token_name : ReferencedIntegrationToken → Text
token_name t = t.name

unfoldable pub integration_names_of : Collected → List Text
unfolding distinct_from
integration_names_of c = distinct_from [] (map token_name c.integration_tokens)

abbrev pub is_pair : (provider ref : Text) → Text × Text → Bool
is_pair provider ref p = same p.0 provider && same p.1 ref

-- `dedupeProviderRefs`
unfoldable pub distinct_refs :
    (seen : List (Text × Text)) → List ReferencedProviderSecret → List (Text × Text)
distinct_refs seen [] = []
distinct_refs seen (p ∷ ps) =
    let rest = distinct_refs ((p.provider, p.ref) ∷ seen) ps in
    if exists (is_pair p.provider p.ref) seen then rest else (p.provider, p.ref) ∷ rest

abbrev pub secret_refs : List ReferencedSecret → List SecretRef
secret_refs [] = []
secret_refs (s ∷ ss) = record { name = s.name; scope = s.scope } ∷ secret_refs ss

abbrev pub basic_refs : List ReferencedBasicAuthSecret → List SecretRef
basic_refs [] = []
basic_refs (b ∷ bs) =
    record { name = b.username; scope = b.scope }
    ∷ record { name = b.password; scope = b.scope }
    ∷ basic_refs bs

-- `resolved.values[name] ?? ''`: the entry that was set last stands in front.
unfoldable pub value_of_name : (name : Text) → List (Text × Text) → Text
value_of_name name [] = []
value_of_name name ((n, v) ∷ vs) =
    let rest = value_of_name name vs in if same n name then v else rest

abbrev pub add_secrets :
    (values : List (Text × Text)) → List ReferencedSecret → Replacements → Replacements
add_secrets values [] rs = rs
add_secrets values (s ∷ ss) rs =
    add_secrets values ss (set_replacement s.placeholder (value_of_name s.name values) rs)

module _ (host : GatewayHost) where
  abbrev pub basic_header : (username password : Text) → Text
  basic_header username password =
      codes "Basic " ++ host.store.platform.btoa (username ++ 58 ∷ password)

  -- Both `Basic {{…}}` and the placeholder by itself become one header value.
  abbrev pub set_schemes : (placeholder header : Text) → Replacements → Replacements
  set_schemes placeholder header rs = set_replacement placeholder header (
      set_replacement (codes "BASIC " ++ placeholder) header (
        set_replacement (codes "basic " ++ placeholder) header
          (set_replacement (codes "Basic " ++ placeholder) header rs)))

  abbrev pub add_basic :
      (values : List (Text × Text)) → List ReferencedBasicAuthSecret → Replacements → Replacements
  add_basic values [] rs = rs
  add_basic values (b ∷ bs) rs = add_basic values bs (
      set_schemes b.placeholder
        (basic_header (value_of_name b.username values) (value_of_name b.password values)) rs)

  abbrev pub no_missing : List Text → GatewayError → Gateway (Unit {0})
  no_missing [] e = pure tt
  no_missing (m ∷ ms) e = throw e

  abbrev pub readable : {A : Type 0} → Result KeyError A → Gateway A
  readable (ok a) = pure a
  readable (err e) = throw (unreadable_secret e)

  abbrev pub is_empty_list : List Text → Bool
  is_empty_list [] = true
  is_empty_list (n ∷ ns) = false

  abbrev pub resolve_secrets : List SecretRef → Gateway (List (Text × Text))
  resolve_secrets refs = do
    rows ← gets (λ s. s.cell.secrets)
    found ← readable (
        secret_resolve_values host.store.platform.crypto host.store.keyring host.store.user_id refs
          host.package_name rows)
    no_missing found.missing secret_not_found
    pure found.values

  -- `{{secret:…}}` and `{{secret-basic:…}}`: approved hosts only.
  unfoldable pub inject_secrets :
      Collected → (host_approved : Bool) → Replacements → Gateway Replacements
  unfolding secret_names_of secret_resolve_values set_replacement value_of_name
  inject_secrets c host_approved rs = if is_empty_list (secret_names_of c) then pure rs else (do
    require host_approved secret_host_not_approved
    values ← resolve_secrets (secret_refs c.secrets ++ basic_refs c.basic)
    pure (add_basic values c.basic (add_secrets values c.secrets rs)))

  abbrev pub add_token :
      (name token : Text) → List ReferencedIntegrationToken → Replacements → Replacements
  add_token name token [] rs = rs
  add_token name token (t ∷ ts) rs =
      add_token name token ts
        (if same t.name name then set_replacement t.placeholder token rs else rs)

  -- The store of integrations, as a part of the state.
  abbrev pub in_integrations :
      Result IntegrationError Resolution × IntegrationStore → Gateway Resolution
  in_integrations (ok r, t) s = (ok r, record s { integrations = t })
  in_integrations (err e, t) s = (err (integration_thrown e), record s { integrations = t })

  abbrev pub token_of : Resolution → Gateway Text
  token_of (resolved token row refreshed) = pure token
  token_of (refused e row) = throw (integration_refused e)

  unfoldable pub resolve_token :
      (name request_host : Text) → (force_refresh : Bool) → Drawn → (now : ℕ) → Gateway Text
  unfolding token_resolve
  resolve_token name request_host force_refresh drawn now = do
    answer ← λ s.
        in_integrations
          (token_resolve host.store name host.package_name request_host force_refresh drawn now
            s.integrations)
          s
    token_of answer

  -- `draw n` is what the n-th round draws.
  unfoldable pub inject_integrations :
      (request_host : Text) (force_refresh : Bool) (draw : ℕ → Drawn) (now : ℕ)
      → List ReferencedIntegrationToken
      → (names : List Text) → Replacements
      → Gateway Replacements
  unfolding resolve_token set_replacement
  inject_integrations request_host force_refresh draw now tokens [] rs = pure rs
  inject_integrations request_host force_refresh draw now tokens (name ∷ names) rs = do
    token ← resolve_token name request_host force_refresh (draw (length names)) now
    inject_integrations request_host force_refresh draw now tokens names
        (add_token name token tokens rs)
