-- ===== src/Oauth/Sound.antt =====
-- The invariant of the store's tables, and that every method keeps it.
pub mod Defs
pub mod Writes
pub mod Rotate
pub mod Rotated
pub mod Refresh
pub mod Methods
pub mod Issue
pub mod Runs
