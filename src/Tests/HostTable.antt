-- ===== src/Tests/HostTable.antt =====
-- Addresses, ranges and allowlists on concrete inputs.
use kody_celld.Prelude.{
  ◌≡◌, ◌↔◌, ◌/◌, ◌^◌, ◌*◌, ◌+◌, refl, arith, some, true, codes, [], ◌∷◌, same, split_from, has_char,
  starts_with, ends_with,
}
use kody_celld.Table.{exists}
use kody_celld.Hosts.Ip.{ip_of_v6, v4, parse_ip_literal, normal_text, drop_close}
use kody_celld.Hosts.Private.{in_cidr, is_private_v4, is_private_v6}
use kody_celld.Hosts.Ranges.{in_cidr_iff, embedded_v4}
use kody_celld.Hosts.Allowlist.{parse_entry, host_matches_allowlist}
use kody_celld.Hosts.Matches.{AnyOf, Allows, host_matches_iff}

in_cidr_iff_example :
    (in_cidr 3232235777 3232235520 16 32 ≡ true) ↔ (3232235777 / 2 ^ 16 ≡ 3232235520 / 2 ^ 16)
in_cidr_iff_example =
    in_cidr_iff 3232235777 3232235520 16 32 (omega arith) (omega arith) (omega arith)

embedded_v4_example :
    (is_private_v6 2130706433 ≡ is_private_v4 2130706433)
    × (is_private_v6 (0xffff0000 * 2 ^ 32 + 2130706433) ≡ is_private_v4 2130706433)
    × (is_private_v6 (0x64ff9b * 2 ^ 96 + 2130706433) ≡ is_private_v4 2130706433)
    × (is_private_v6 (0x2002 * 2 ^ 112 + 2130706433 * 2 ^ 80 + 5) ≡ is_private_v4 2130706433)
    × (ip_of_v6 (some (0xffff * 2 ^ 32 + 2130706433))
        ≡ some (record { version = v4; value = 2130706433 }))
embedded_v4_example = embedded_v4 2130706433 5 (omega arith) (omega arith)

host_matches_iff_example :
    (host_matches_allowlist
        (λ t. t)
        (λ t. t)
        (codes "a.lan")
        (codes "10.0.0.0/8" ∷ codes "*.lan" ∷ [])
      ≡ true)
    ↔ AnyOf
        (λ raw.
          Allows
            (parse_ip_literal (λ t. t) (λ t. t) (normal_text (λ t. t) (λ t. t) (codes "a.lan")))
            (normal_text (λ t. t) (λ t. t) (codes "a.lan"))
            (parse_entry (λ t. t) (λ t. t) raw))
        (codes "10.0.0.0/8" ∷ codes "*.lan" ∷ [])
host_matches_iff_example =
    host_matches_iff (λ t. t) (λ t. t) (codes "a.lan") (codes "10.0.0.0/8" ∷ codes "*.lan" ∷ [])

-- `*.lan` lets `a.lan` through.
lan_allowed :
    host_matches_allowlist
      (λ t. t)
      (λ t. t)
      (codes "a.lan")
      (codes "10.0.0.0/8" ∷ codes "*.lan" ∷ [])
    ≡ true
unfolding host_matches_allowlist ends_with split_from has_char starts_with same drop_close
lan_allowed = refl

mapped_private : is_private_v4 2130706433 ≡ true
unfolding is_private_v4 split_from exists
mapped_private = refl
