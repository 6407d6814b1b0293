-- ===== src/Examples.antt =====
-- Concrete inputs for the theorems.
pub mod Config
pub mod Sql
pub mod Runs
pub mod Wipe
pub mod Extract
pub mod State
pub mod Lake
pub mod Load
pub mod Jobs
pub mod Gateway
pub mod Tables
