-- ===== src/Gateway/Policy.antt =====
-- `normalizeSecretHost`, `hostMatchesApproval`, `isHostApproved` and `isCredentialTransportAllowed`
-- of src/secrets/host-policy.ts.
use kody_celld.Prelude.{
  ℕ, Bool, true, false, not, ◌&&◌, ◌||◌, List, [], ◌∷◌, Text, codes, same, split_from, has_char,
  starts_with, ends_with, leb, ltb, ◌==◌, between, length, drop, if◌then◌else◌,
}
use kody_celld.Act.{Result, ok, err}
use kody_celld.Hosts.Ip.{is_digit}
use kody_celld.Hosts.Allowlist.{host_matches_allowlist}
use kody_celld.Oauth.Protocol.Redirects.{Url}

pub data HostError : Type 0 where
  invalid_host : HostError

-- `[a-z0-9]`
abbrev pub is_alphanumeric : ℕ → Bool
is_alphanumeric c = between 97 122 c || is_digit c

-- `(?:[a-z0-9-]{0,61}[a-z0-9])?` after the first character of a label
unfoldable pub name_tail : Text → Bool
name_tail [] = true
name_tail (c ∷ []) = is_alphanumeric c
name_tail (c ∷ d ∷ cs) = (is_alphanumeric c || (c == 45)) && name_tail (d ∷ cs)

unfoldable pub is_name_label : Text → Bool
unfolding name_tail
is_name_label [] = false
is_name_label (c ∷ cs) = leb (length (c ∷ cs)) 63 && (is_alphanumeric c && name_tail cs)

unfoldable pub all_name_labels : List Text → Bool
unfolding is_name_label
all_name_labels [] = true
all_name_labels (l ∷ ls) = is_name_label l && all_name_labels ls

-- `hostnameRegex.test(host)`
unfoldable pub hostname_regex : Text → Bool
unfolding all_name_labels
hostname_regex host = between 1 253 (length host) && all_name_labels (split_from 46 [] host)

-- `25[0-5]|2[0-4]\d|1?\d?\d`
unfoldable pub is_octet : Text → Bool
is_octet (a ∷ []) = is_digit a
is_octet (a ∷ b ∷ []) = is_digit a && is_digit b
is_octet (a ∷ b ∷ c ∷ []) =
    ((a == 50) && ((b == 53) && between 48 53 c))
    || ((a == 50) && (between 48 52 b && is_digit c))
    || ((a == 49) && (is_digit b && is_digit c))
is_octet _ = false

abbrev pub four_octets : List Text → Bool
four_octets (a ∷ b ∷ c ∷ d ∷ []) = is_octet a && (is_octet b && (is_octet c && is_octet d))
four_octets _ = false

-- `ipv4Regex.test(host)`
unfoldable pub ipv4_regex : Text → Bool
unfolding is_octet
ipv4_regex host = four_octets (split_from 46 [] host)

-- `text.slice(1, -1)`
unfoldable pub without_last : Text → Text
without_last [] = []
without_last (c ∷ []) = []
without_last (c ∷ d ∷ cs) = c ∷ without_last (d ∷ cs)

abbrev pub inner_of : Text → Text
inner_of text = without_last (drop 1 text)

-- `/^[0-9a-f:.]+$/`
unfoldable pub all_literal_chars : Text → Bool
all_literal_chars [] = true
all_literal_chars (c ∷ cs) =
    (is_digit c || between 97 102 c || (c == 58) || (c == 46)) && all_literal_chars cs

abbrev pub is_blank : Text → Bool
is_blank [] = true
is_blank (c ∷ cs) = false

-- A literal in brackets; where the inner text holds a colon it is not empty.
abbrev pub literal_host : Text → Result HostError Text
literal_host raw =
    if all_literal_chars (inner_of raw) && has_char 58 (inner_of raw)
    then ok raw
    else err invalid_host

-- The rest of the checks: `host` is `raw` without its wildcard.
abbrev pub named_host : (wildcard : Bool) → (host raw : Text) → Result HostError Text
named_host wildcard host raw =
    if has_char 58 host
    then err invalid_host
    else if ipv4_regex host
    then (if wildcard then err invalid_host else ok host)
    else if not (hostname_regex host)
    then err invalid_host
    else if wildcard && not (has_char 46 host)
    then err invalid_host
    else ok raw

abbrev pub has_url_part : Text → Bool
has_url_part raw = has_char 47 raw || has_char 63 raw || has_char 35 raw || has_char 64 raw

abbrev pub normalize_raw : (raw : Text) → Result HostError Text
normalize_raw raw =
    if is_blank raw
    then err invalid_host
    else if has_url_part raw
    then err invalid_host
    else if starts_with (codes "[") raw && ends_with (codes "]") raw
    then literal_host raw
    else if starts_with (codes "*.") raw
    then named_host true (drop 2 raw) raw
    else named_host false raw raw

-- A wildcard entry is `*.` and a host.
abbrev pub approval_matches : (wildcard : Bool) → (host approved : Text) → Bool
approval_matches true host approved =
    ends_with (drop 1 approved) host && ltb (length (drop 1 approved)) (length host)
approval_matches false host approved = same host approved

unfoldable pub host_matches_approval : (host approved : Text) → Bool
host_matches_approval host approved =
    approval_matches (starts_with (codes "*.") approved) host approved

unfoldable pub is_host_approved : (host : Text) → (approved_hosts : List Text) → Bool
unfolding host_matches_approval
is_host_approved host [] = false
is_host_approved host (approved ∷ rest) =
    host_matches_approval host approved || is_host_approved host rest

module _ (trim to_lower : Text → Text) where
  unfoldable pub normalize_secret_host : (input : Text) → Result HostError Text
  unfolding hostname_regex ipv4_regex without_last all_literal_chars
  normalize_secret_host input = normalize_raw (to_lower (trim input))

  unfoldable pub request_host : Url → Text
  request_host url = to_lower url.hostname

  unfoldable pub is_credential_transport_allowed : Url → (private_hosts : List Text) → Bool
  unfolding request_host host_matches_allowlist
  is_credential_transport_allowed url private_hosts =
      if same url.protocol (codes "https:")
      then true
      else if not (same url.protocol (codes "http:"))
      then false
      else host_matches_allowlist trim to_lower (request_host url) private_hosts
