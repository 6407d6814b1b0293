-- ===== src/Load.antt =====
-- load/: writing to the Iceberg tables.
pub mod Commit
pub mod Merge
pub mod Reconcile
pub mod Tables
pub mod Columns
pub mod Drops
