-- ===== src/Hosts.antt =====
-- The operator's allowlist of private hosts: src/lib/host-allowlist.ts.
pub mod Ip
pub mod Octets
pub mod Private
pub mod Ranges
pub mod Allowlist
pub mod Matches
