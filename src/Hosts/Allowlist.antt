-- ===== src/Hosts/Allowlist.antt =====
-- `parseEntry`, `normalizeAllowlistEntry`, `parseHostAllowlist` and `hostMatchesAllowlist`.
use Prim.Native.Nat.{bit_and}
use kody_celld.Prelude.{
  ℕ, Bool, true, false, ◌&&◌, ◌||◌, Option, none, some, List, [], ◌∷◌, Text, codes, same,
  split_from, has_char, starts_with, ends_with, leb, ltb, ◌==◌, between, length, if◌then◌else◌,
}
use kody_celld.Act.{Result, ok, err}
use kody_celld.Hosts.Ip.{
  Version, v4, v6, Ip, decimal, is_digit, parse_ipv4, parse_ipv6, parse_ip_literal, normal_text,
  strip_brackets, drop_open,
}
use kody_celld.Hosts.Private.{cidr_mask, in_cidr, parsed}

-- `[a-z0-9_]`
abbrev pub is_label_end : ℕ → Bool
is_label_end c = between 97 122 c || is_digit c || (c == 95)

-- `(?:[a-z0-9_-]{0,61}[a-z0-9_])?` after the first character of a label
unfoldable pub label_tail : Text → Bool
label_tail [] = true
label_tail (c ∷ []) = is_label_end c
label_tail (c ∷ d ∷ cs) = (is_label_end c || (c == 45)) && label_tail (d ∷ cs)

unfoldable pub is_label : Text → Bool
unfolding label_tail
is_label [] = false
is_label (c ∷ cs) = leb (length (c ∷ cs)) 63 && (is_label_end c && label_tail cs)

unfoldable pub all_labels : List Text → Bool
unfolding is_label
all_labels [] = true
all_labels (l ∷ ls) = is_label l && all_labels ls

-- `hostnamePattern.test(text)`
unfoldable pub hostname_pattern : Text → Bool
unfolding all_labels
hostname_pattern text = between 1 253 (length text) && all_labels (split_from 46 [] text)

pub data EntryError : Type 0 where
  empty_entry invalid_prefix not_a_range unmatchable prefix_too_long : EntryError
  invalid_suffix invalid_host : EntryError

pub data Entry : Type 0 where
  host : Text → Entry
  suffix : Text → Entry
  cidr : Version → (network prefix : ℕ) → Entry

abbrev pub width_of : Version → ℕ
width_of v4 = 32
width_of v6 = 128

-- The range that `value` and `prefix` give.
abbrev pub range_entry : Version → (value prefix : ℕ) → Result EntryError Entry
range_entry version value prefix =
    if ltb (width_of version) prefix
    then err prefix_too_long
    else ok (cidr version (bit_and value (cidr_mask prefix (width_of version))) prefix)

-- A range whose text is no IPv4 address may still be one that is mapped from IPv4.
abbrev pub v6_range : Version → Option ℕ → (prefix : ℕ) → Result EntryError Entry
v6_range v4 v6_value prefix = err unmatchable
v6_range v6 v6_value prefix = range_entry v6 (parsed v6_value) prefix

-- `isV4Text` holds where the text of the address is an IPv4 address without brackets.
abbrev pub range_of :
    Option Ip → (v4_text v6_value : Option ℕ) → (prefix : ℕ) → Result EntryError Entry
range_of none v4_text v6_value prefix = err not_a_range
range_of (some ip) (some value) v6_value prefix = range_entry v4 ip.value prefix
range_of (some ip) none v6_value prefix = v6_range ip.version v6_value prefix

abbrev pub or_invalid_prefix : Option ℕ → (ℕ → Result EntryError Entry) → Result EntryError Entry
or_invalid_prefix none f = err invalid_prefix
or_invalid_prefix (some prefix) f = f prefix

abbrev pub suffix_entry : Text → Result EntryError Entry
suffix_entry name = if hostname_pattern name then ok (suffix (46 ∷ name)) else err invalid_suffix

-- An entry without a `/` that is no IP literal.
unfoldable pub drop_two : Text → Text
drop_two (a ∷ b ∷ cs) = cs
drop_two _ = []

abbrev pub name_entry : Text → Result EntryError Entry
name_entry entry =
    if starts_with (codes "*.") entry
    then suffix_entry (drop_two entry)
    else if hostname_pattern entry
    then ok (host entry)
    else err invalid_host

-- An entry without a `/`; a literal is a range of one address.
abbrev pub plain_entry : Option Ip → Text → Result EntryError Entry
plain_entry (some ip) entry = ok (cidr ip.version ip.value (width_of ip.version))
plain_entry none entry = name_entry entry

abbrev pub is_empty_text : Text → Bool
is_empty_text [] = true
is_empty_text (c ∷ cs) = false

abbrev pub in_range_of : Version → ℕ → Version → (network prefix : ℕ) → Bool
in_range_of v4 value v4 network prefix = in_cidr value network prefix 32
in_range_of v6 value v6 network prefix = in_cidr value network prefix 128
in_range_of v4 value v6 network prefix = false
in_range_of v6 value v4 network prefix = false

abbrev pub in_range : Ip → Version → (network prefix : ℕ) → Bool
in_range ip version network prefix = in_range_of ip.version ip.value version network prefix

-- Whether the loop returns at an entry.
abbrev pub entry_matches : (ip : Option Ip) → (name : Text) → Result EntryError Entry → Bool
entry_matches ip name (err e) = false
entry_matches none name (ok (cidr version network prefix)) = false
entry_matches (some ip) name (ok (cidr version network prefix)) = in_range ip version network prefix
entry_matches (some ip) name (ok (suffix s)) = false
entry_matches (some ip) name (ok (host h)) = false
entry_matches none name (ok (suffix s)) = ends_with s name && ltb (length s) (length name)
entry_matches none name (ok (host h)) = same name h

module _ (trim to_lower : Text → Text) where
  -- The parts of an entry around its `/`.
  unfoldable pub range_parts : List Text → Result EntryError Entry
  unfolding parse_ip_literal parse_ipv4 parse_ipv6 decimal
  range_parts (address ∷ prefix_text ∷ []) = or_invalid_prefix (decimal prefix_text) (
      range_of (parse_ip_literal trim to_lower address) (parse_ipv4 address)
        (parse_ipv6 (strip_brackets address)))
  range_parts _ = err invalid_prefix

  unfoldable pub parse_entry : Text → Result EntryError Entry
  unfolding range_parts hostname_pattern parse_ip_literal drop_two
  parse_entry raw =
      let entry = to_lower (trim raw) in
      if is_empty_text entry
      then err empty_entry
      else if has_char 47 entry
      then range_parts (split_from 47 [] entry)
      else plain_entry (parse_ip_literal trim to_lower entry) entry

  unfoldable pub any_matches : (ip : Option Ip) → (name : Text) → List Text → Bool
  unfolding parse_entry
  any_matches ip name [] = false
  any_matches ip name (raw ∷ entries) =
      entry_matches ip name (parse_entry raw) || any_matches ip name entries

  unfoldable pub host_matches_allowlist : (hostname : Text) → List Text → Bool
  unfolding any_matches parse_ip_literal
  host_matches_allowlist hostname entries =
      let name = normal_text trim to_lower hostname in
      any_matches (parse_ip_literal trim to_lower name) name entries

  -- `.replace(/^\[|\](?=\/|$)/g, '')`: a `]` goes in front of a `/` and at the end.
  unfoldable pub drop_closes : Text → Text
  drop_closes [] = []
  drop_closes (c ∷ []) = if c == 93 then [] else c ∷ []
  drop_closes (c ∷ d ∷ cs) =
      let rest = drop_closes (d ∷ cs) in if (c == 93) && (d == 47) then rest else c ∷ rest

  abbrev pub normalized : Text → Result EntryError Entry → Result EntryError Text
  normalized text (ok entry) = ok text
  normalized text (err e) = err e

  unfoldable pub normalize_allowlist_entry : Text → Result EntryError Text
  unfolding parse_entry drop_closes
  normalize_allowlist_entry entry =
      normalized (drop_closes (drop_open (to_lower (trim entry)))) (parse_entry entry)

  abbrev pub add_entry :
      Result EntryError Text → Result EntryError (List Text) → Result EntryError (List Text)
  add_entry (err e) rest = err e
  add_entry (ok entry) (err e) = err e
  add_entry (ok entry) (ok entries) = ok (entry ∷ entries)

  -- The entries between the commas; blank ones are left out. An error names the variable too.
  unfoldable pub allowlist_of : List Text → Result EntryError (List Text)
  unfolding normalize_allowlist_entry
  allowlist_of [] = ok []
  allowlist_of (part ∷ parts) =
      if is_empty_text (trim part)
      then allowlist_of parts
      else add_entry (normalize_allowlist_entry part) (allowlist_of parts)

  unfoldable pub parse_host_allowlist : (raw : Option Text) → Result EntryError (List Text)
  unfolding allowlist_of
  parse_host_allowlist none = ok []
  parse_host_allowlist (some raw) = allowlist_of (split_from 44 [] raw)
