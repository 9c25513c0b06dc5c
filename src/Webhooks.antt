-- ===== src/Webhooks.antt =====
-- The admission of webhook deliveries, of src/cells/user-cell.ts.
pub mod Defs
pub mod Admit
pub mod Retired
pub mod Ledger
pub mod Delivered
