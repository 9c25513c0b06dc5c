-- ===== src/Hosts/Ip.antt =====
-- The literals of IP addresses: `parseIpv4`, `parseIpv6`, `parseIpLiteral` and `formatIpv4`.
use kody_celld.Prelude.{
  ℕ, zero, suc, ◌+◌, ◌-◌, ◌*◌, ◌/◌, ◌%◌, ◌^◌, Bool, true, false, ◌&&◌, ◌||◌, Option, none, some,
  List, [], ◌∷◌, ◌++◌, Text, split_from, has_char, ltb, ◌==◌, between, length, if◌then◌else◌,
}

abbrev pub is_digit : ℕ → Bool
is_digit c = between 48 57 c

-- `/^\d{1,3}$/`, and `Number` of such a text
unfoldable pub decimal : Text → Option ℕ
decimal (a ∷ []) = if is_digit a then some (a - 48) else none
decimal (a ∷ b ∷ []) = if is_digit a && is_digit b then some ((a - 48) * 10 + (b - 48)) else none
decimal (a ∷ b ∷ c ∷ []) =
    if is_digit a && (is_digit b && is_digit c)
    then some ((a - 48) * 100 + (b - 48) * 10 + (c - 48))
    else none
decimal _ = none

abbrev pub octet : Option ℕ → Option ℕ
octet none = none
octet (some n) = if ltb 255 n then none else some n

-- `value = (value << 8n) | BigInt(n)`, where `n` is below 256.
abbrev pub push_octet : (value : ℕ) → Option ℕ → Option ℕ
push_octet value none = none
push_octet value (some n) = some (value * 256 + n)

abbrev pub bind_octet : Option ℕ → (ℕ → Option ℕ) → Option ℕ
bind_octet none f = none
bind_octet (some value) f = f value

unfoldable pub octets : (value : ℕ) → List Text → Option ℕ
unfolding decimal
octets value [] = some value
octets value (part ∷ parts) =
    bind_octet (push_octet value (octet (decimal part))) (λ v. octets v parts)

unfoldable pub parse_ipv4 : Text → Option ℕ
unfolding octets
parse_ipv4 text =
    let parts = split_from 46 [] text in if length parts == 4 then octets 0 parts else none

-- `text.split('::')`
unfoldable pub split_double : (word : Text) → Text → List Text
split_double word [] = word ∷ []
split_double word (c ∷ []) = (word ++ c ∷ []) ∷ []
split_double word (c ∷ d ∷ cs) =
    let rest = split_double [] cs in
    let on = split_double (word ++ c ∷ []) (d ∷ cs) in
    if (c == 58) && (d == 58) then word ∷ rest else on

abbrev pub groups : Text → List Text
groups [] = []
groups (c ∷ cs) = split_from 58 [] (c ∷ cs)

-- The digits of `[0-9a-f]`.
unfoldable pub hex_value : ℕ → Option ℕ
hex_value c = if is_digit c then some (c - 48) else if between 97 102 c then some (c - 87) else none

abbrev pub push_digit : (value : ℕ) → Option ℕ → Option ℕ
push_digit value none = none
push_digit value (some n) = some (value * 16 + n)

unfoldable pub hex_from : (value : ℕ) → Text → Option ℕ
unfolding hex_value
hex_from value [] = some value
hex_from value (c ∷ cs) = bind_octet (push_digit value (hex_value c)) (λ v. hex_from v cs)

-- `/^[0-9a-f]{1,4}$/`, and `parseInt(group, 16)` of such a text
unfoldable pub hex_group : Text → Option ℕ
unfolding hex_from
hex_group group = if between 1 4 (length group) then hex_from 0 group else none

abbrev pub words_of_v4 : Option ℕ → Option (List ℕ)
words_of_v4 none = none
words_of_v4 (some value) = some ((value / 2 ^ 16) ∷ (value % 2 ^ 16) ∷ [])

abbrev pub one_word : Option ℕ → Option (List ℕ)
one_word none = none
one_word (some word) = some (word ∷ [])

abbrev pub join_words : Option (List ℕ) → Option (List ℕ) → Option (List ℕ)
join_words none rest = none
join_words (some ws) none = none
join_words (some ws) (some vs) = some (ws ++ vs)

abbrev pub is_last : List Text → Bool
is_last [] = true
is_last (g ∷ gs) = false

-- The words of one group, where `later` are the groups behind it; only the last may hold an IPv4
-- address.
unfoldable pub group_words : Text → (later : List Text) → Option (List ℕ)
unfolding parse_ipv4 hex_group
group_words group later =
    if has_char 46 group
    then if is_last later then words_of_v4 (parse_ipv4 group) else none
    else one_word (hex_group group)

unfoldable pub push_groups : List Text → Option (List ℕ)
unfolding group_words
push_groups [] = some []
push_groups (group ∷ later) = join_words (group_words group later) (push_groups later)

unfoldable pub zeros : ℕ → List ℕ
zeros zero = []
zeros (suc n) = 0 ∷ zeros n

-- `all.reduce((acc, word) => (acc << 16n) | BigInt(word), 0n)`, where words are below 2 ^ 16.
unfoldable pub joined : (acc : ℕ) → List ℕ → ℕ
joined acc [] = acc
joined acc (word ∷ words) = joined (acc * 2 ^ 16 + word) words

-- Without `::` there are eight words, with it at most seven.
unfoldable pub whole_address : Option (List ℕ) → Option ℕ
unfolding joined
whole_address none = none
whole_address (some words) = if length words == 8 then some (joined 0 words) else none

unfoldable pub filled_address : Option (List ℕ) → Option (List ℕ) → Option ℕ
unfolding joined zeros
filled_address none tail = none
filled_address (some head) none = none
filled_address (some head) (some tail) =
    let used = length head + length tail in
    if ltb used 8 then some (joined 0 (head ++ zeros (8 - used) ++ tail)) else none

unfoldable pub address_of : (halves : List Text) → Option ℕ
unfolding push_groups whole_address filled_address
address_of (half ∷ []) = whole_address (push_groups (groups half))
address_of (head ∷ tail ∷ []) =
    filled_address (push_groups (groups head)) (push_groups (groups tail))
address_of _ = none

-- `/^[0-9a-f:.]+$/` on a text that has a `:`
unfoldable pub all_ipv6_chars : Text → Bool
all_ipv6_chars [] = true
all_ipv6_chars (c ∷ cs) =
    (is_digit c || between 97 102 c || (c == 58) || (c == 46)) && all_ipv6_chars cs

unfoldable pub parse_ipv6 : Text → Option ℕ
unfolding all_ipv6_chars split_double address_of
parse_ipv6 text =
    if all_ipv6_chars text && has_char 58 text then address_of (split_double [] text) else none

pub data Version : Type 0 where
  v4 v6 : Version

pub record Ip : Type 0 where
  pub version : Version
  pub value : ℕ

-- `.replace(/^\[|\]$/g, '')`
abbrev pub drop_open : Text → Text
drop_open [] = []
drop_open (c ∷ cs) = if c == 91 then cs else c ∷ cs

unfoldable pub drop_close : Text → Text
drop_close [] = []
drop_close (c ∷ []) = if c == 93 then [] else c ∷ []
drop_close (c ∷ d ∷ cs) = c ∷ drop_close (d ∷ cs)

abbrev pub strip_brackets : Text → Text
strip_brackets text = drop_close (drop_open text)

-- An address that is mapped from IPv4 comes back as one of version 4. The source also asks that
-- `v6 & (0xffff << 32)` is that mask.
abbrev pub ip_of_v6 : Option ℕ → Option Ip
ip_of_v6 none = none
ip_of_v6 (some value) =
    if (value / 2 ^ 32 == 0xffff) && (value / 2 ^ 32 % 2 ^ 16 == 0xffff)
    then some (record { version = v4; value = value % 2 ^ 32 })
    else some (record { version = v6; value = value })

abbrev pub ip_of : Option ℕ → Option ℕ → Option Ip
ip_of (some value) v6_value = some (record { version = v4; value = value })
ip_of none v6_value = ip_of_v6 v6_value

-- `trim` and `to_lower` are the platform's.
abbrev pub normal_text : (trim to_lower : Text → Text) → Text → Text
normal_text trim to_lower host = strip_brackets (to_lower (trim host))

unfoldable pub parse_ip_literal : (trim to_lower : Text → Text) → Text → Option Ip
unfolding parse_ipv4 parse_ipv6
parse_ip_literal trim to_lower host =
    let text = normal_text trim to_lower host in ip_of (parse_ipv4 text) (parse_ipv6 text)

-- `String` of a number below 1000
abbrev pub decimal_text : ℕ → Text
decimal_text n =
    if ltb n 10
    then (48 + n) ∷ []
    else if ltb n 100
    then (48 + n / 10) ∷ (48 + n % 10) ∷ []
    else (48 + n / 100) ∷ (48 + n / 10 % 10) ∷ (48 + n % 10) ∷ []

unfoldable pub format_ipv4 : ℕ → Text
format_ipv4 value =
    decimal_text (value / 2 ^ 24 % 256)
    ++ 46
      ∷ (decimal_text (value / 2 ^ 16 % 256)
          ++ 46 ∷ (decimal_text (value / 2 ^ 8 % 256) ++ 46 ∷ decimal_text (value % 256)))
