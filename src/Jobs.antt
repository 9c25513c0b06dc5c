-- ===== src/Jobs.antt =====
-- Scheduled jobs: src/jobs/schedule.ts, and the methods of src/cells/user-cell.ts on the table `jobs`.
pub mod Schedule
pub mod Next
pub mod Claim
