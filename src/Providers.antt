-- ===== src/Providers.antt =====
-- Packages that serve secrets of other vaults: src/secrets/provider-store.ts, and the methods of
-- src/cells/user-cell.ts that call it.
pub mod Defs
pub mod Store
pub mod Cell
pub mod Unbound
pub mod Packages
pub mod Written
pub mod Runs
pub mod Rebound
pub mod Permits
pub mod Cached
