-- ===== src/Gateway/Provided.antt =====
-- `parseProviderResult` of src/secrets/fetch-gateway.ts and `normalizeProviderHosts` of
-- src/secrets/provider-store.ts.
use kody_celld.Prelude.{
  Bool, false, not, ◌&&◌, ◌||◌, Option, none, some, List, [], ◌∷◌, ◌++◌, Text, codes, contains,
  split_from, has_char, leb, ◌==◌, length, if◌then◌else◌,
}
use kody_celld.Act.{Result, ok, err}
use kody_celld.Json.{Json, string, array, object, items, JsonEntries, field}
use kody_celld.Oauth.Protocol.Redirects.{Url}
use kody_celld.Oauth.Protocol.Authorize.{is_white}
use kody_celld.Gateway.Policy.{HostError, normalize_secret_host, is_blank}
use kody_celld.Integrations.Defs.{OauthPlatform}
use kody_celld.Integrations.Requests.{includes}

pub record ProviderResult : Type 0 where
  pub value : Text
  pub hosts : List Text
  pub canonical_ref : Option Text

abbrev pub add_host : Result HostError Text → List Text → List Text
add_host (err e) hosts = hosts
add_host (ok host) hosts = if contains host hosts then hosts else hosts ++ host ∷ []

abbrev pub first_part : List Text → Text
first_part [] = []
first_part (part ∷ parts) = part

module _ (p : OauthPlatform) where
  abbrev pub hostname_of : Option Url → Option Text
  hostname_of none = none
  hostname_of (some url) = some url.hostname

  -- The text that is normalized, or `none` where the entry is left out.
  unfoldable pub candidate_of : (trimmed : Text) → Option Text
  unfolding includes
  candidate_of trimmed =
      if is_blank trimmed
      then none
      else if includes (codes "://") trimmed
      then hostname_of (p.parse_url trimmed)
      else if has_char 47 trimmed
      then some (first_part (split_from 47 [] trimmed))
      else some trimmed

  abbrev pub add_candidate : Option Text → List Text → List Text
  add_candidate none hosts = hosts
  add_candidate (some text) hosts = add_host (normalize_secret_host p.trim p.to_lower text) hosts

  abbrev pub add_listed : Json → List Text → List Text
  add_listed (string text) hosts = add_candidate (candidate_of (p.to_lower (p.trim text))) hosts
  add_listed _ hosts = hosts

  -- The loop stops where it has 32 hosts.
  unfoldable pub hosts_from : (hosts : List Text) → List Json → List Text
  unfolding candidate_of normalize_secret_host
  hosts_from hosts [] = hosts
  hosts_from hosts (listed ∷ rest) =
      let more = hosts_from (add_listed listed hosts) rest in
      if leb 32 (length hosts) then hosts else more

  unfoldable pub normalize_provider_hosts : (raw : Option Json) → List Text
  unfolding hosts_from
  normalize_provider_hosts (some (array listed)) = hosts_from [] (items listed)
  normalize_provider_hosts _ = []

  -- `/[\s{}]/`
  unfoldable pub has_blank_or_brace : Text → Bool
  has_blank_or_brace [] = false
  has_blank_or_brace (c ∷ cs) = is_white c || (c == 123) || (c == 125) || has_blank_or_brace cs

  abbrev pub canonical_from : Option Json → Option Text
  canonical_from (some (string text)) =
      if not (is_blank (p.trim text)) && not (has_blank_or_brace text)
      then some (p.trim text)
      else none
  canonical_from _ = none

  abbrev pub provider_result : JsonEntries → Option Json → Option ProviderResult
  provider_result fields (some (string value)) = some (record {
    value = value;
    hosts = normalize_provider_hosts (field (codes "hosts") fields);
    canonical_ref = canonical_from (field (codes "canonicalRef") fields);
  })
  provider_result fields _ = none

  unfoldable pub parse_provider_result : Json → Option ProviderResult
  unfolding normalize_provider_hosts has_blank_or_brace
  parse_provider_result (object fields) = provider_result fields (field (codes "value") fields)
  parse_provider_result _ = none
