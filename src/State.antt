-- ===== src/State.antt =====
-- state/: what the pipeline remembers between runs, in the metadata database.
pub mod Time
pub mod Watermarks
pub mod Chunks
