-- ===== src/Limits.antt =====
-- The operator's limits and quotas: src/lib/limits.ts.
pub mod Defs
pub mod Env
pub mod Bounds
pub mod Override
pub mod Overrides
