-- ===== src/Jobs.antt =====
-- JobRepository (api/app/repositories/job.py) by its concerns.
pub mod Lifecycle
pub mod Progress
pub mod Stalled
pub mod Cleanup
pub mod Queries
pub mod Calls
