-- ===== src/Runs.antt =====
-- The triage of failed runs, `RunTriageStore` of src/runs/triage-store.ts.
pub mod Defs
pub mod Order
pub mod Triage
pub mod AutoResolve
pub mod Drain
pub mod Update
