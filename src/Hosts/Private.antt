-- ===== src/Hosts/Private.antt =====
-- `cidrMask`, `inCidr`, and the addresses and names that count as private.
use Prim.Native.Nat.{bit_and}
use kody_celld.Prelude.{
  ℕ, ◌-◌, ◌*◌, ◌/◌, ◌%◌, ◌^◌, Bool, true, false, not, ◌||◌, Option, none, some, List, [], ◌∷◌, map,
  Text, codes, same, has_char, ends_with, ◌==◌, if◌then◌else◌,
}
use kody_celld.Table.{exists}
use kody_celld.Hosts.Ip.{Version, v4, v6, Ip, parse_ipv4, parse_ipv6, parse_ip_literal}

unfoldable pub cidr_mask : (prefix width : ℕ) → ℕ
cidr_mask prefix width = if prefix == 0 then 0 else (2 ^ prefix - 1) * 2 ^ (width - prefix)

unfoldable pub in_cidr : (value network prefix width : ℕ) → Bool
unfolding cidr_mask
in_cidr value network prefix width =
    bit_and value (cidr_mask prefix width) == bit_and network (cidr_mask prefix width)

-- `parseIpv4(address)!` of an address that parses
abbrev pub parsed : Option ℕ → ℕ
parsed none = 0
parsed (some value) = value

unfoldable pub private_v4 : List (ℕ × ℕ)
unfolding parse_ipv4
private_v4 =
    map (λ (a : Text × ℕ). (parsed (parse_ipv4 a.0), a.1))
      ((codes "0.0.0.0", 8)
        ∷ (codes "10.0.0.0", 8)
        ∷ (codes "100.64.0.0", 10)
        ∷ (codes "127.0.0.0", 8)
        ∷ (codes "169.254.0.0", 16)
        ∷ (codes "172.16.0.0", 12)
        ∷ (codes "192.0.0.0", 24)
        ∷ (codes "192.168.0.0", 16)
        ∷ (codes "198.18.0.0", 15)
        ∷ (codes "224.0.0.0", 4)
        ∷ (codes "240.0.0.0", 4)
        ∷ (codes "255.255.255.255", 32)
        ∷ [])

unfoldable pub private_v6 : List (ℕ × ℕ)
unfolding parse_ipv6
private_v6 =
    map (λ (a : Text × ℕ). (parsed (parse_ipv6 a.0), a.1))
      ((codes "64:ff9b:1::", 48)
        ∷ (codes "fc00::", 7)
        ∷ (codes "fe80::", 10)
        ∷ (codes "fec0::", 10)
        ∷ (codes "ff00::", 8)
        ∷ (codes "100::", 64)
        ∷ [])

unfoldable pub is_private_v4 : ℕ → Bool
unfolding private_v4 in_cidr
is_private_v4 value = exists (λ (r : ℕ × ℕ). in_cidr value r.0 r.1 32) private_v4

unfoldable pub is_private_v6 : ℕ → Bool
unfolding private_v6 in_cidr is_private_v4
is_private_v6 value =
    let low32 = value % 2 ^ 32 in
    let top96 = value / 2 ^ 32 in
    if (top96 == 0) || (top96 == 0xffff0000) || (top96 == 0x64ff9b * 2 ^ 64)
    then is_private_v4 low32
    else if value / 2 ^ 112 == 0x2002
    then is_private_v4 (value / 2 ^ 80 % 2 ^ 32)
    else exists (λ (r : ℕ × ℕ). in_cidr value r.0 r.1 128) private_v6

abbrev pub is_private_value : Version → ℕ → Bool
is_private_value v4 value = is_private_v4 value
is_private_value v6 value = is_private_v6 value

abbrev pub is_private : Option Ip → Bool
is_private none = false
is_private (some ip) = is_private_value ip.version ip.value

module _ (trim to_lower : Text → Text) where
  unfoldable pub is_private_ip : Text → Bool
  unfolding parse_ip_literal is_private_v4 is_private_v6
  is_private_ip host = is_private (parse_ip_literal trim to_lower host)

  unfoldable pub is_private_hostname : Text → Bool
  unfolding is_private_ip
  is_private_hostname hostname =
      let host = to_lower hostname in
      if is_private_ip host
      then true
      else if has_char 58 host
      then false
      else same host (codes "localhost")
        || ends_with (codes ".localhost") host
        || ends_with (codes ".internal") host
        || ends_with (codes ".local") host
        || not (has_char 46 host)
