-- ===== src/Gateway.antt =====
-- gateway/: the query gateway.
pub mod Auth
pub mod Pool
pub mod Query
pub mod SqlGuard
pub mod OAuth
pub mod App
pub mod Views
pub mod Wipe
pub mod Dagster
