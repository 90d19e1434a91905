-- ===== src/Jobs.antt =====
-- The scheduled jobs, lib/jobs.
pub mod Rows
pub mod Archival
