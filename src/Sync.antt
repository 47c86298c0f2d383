-- ===== src/Sync.antt =====
-- rust/src/sync: the background worker that pushes commits to the remote.
pub mod Scheduler
pub mod Examples
