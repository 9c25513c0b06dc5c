-- ===== src/Secrets.antt =====
-- The stored secrets of a user, of src/cells/user-cell.ts.
pub mod Defs
pub mod Save
pub mod Resolve
pub mod Isolation
pub mod Keyed
pub mod Sealed
pub mod Saved
pub mod Quota
pub mod Rekey
pub mod Rekeyed
