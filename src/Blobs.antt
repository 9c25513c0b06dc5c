-- ===== src/Blobs.antt =====
-- Names of stored objects, src/blobs/keys.ts, and their index in src/cells/user-cell.ts.
pub mod Keys
pub mod Paths
pub mod Index
pub mod Quota
