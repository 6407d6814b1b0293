-- ===== src/Orchestration.antt =====
-- orchestration/: the jobs.
pub mod Bootstrap
pub mod Incremental
pub mod Tables
