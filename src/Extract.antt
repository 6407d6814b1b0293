-- ===== src/Extract.antt =====
-- extract/: from the source database to parquet objects in the bucket.
pub mod Chunker
pub mod CopyWorker
pub mod Parts
pub mod Incremental
pub mod Discovery
