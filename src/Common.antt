-- ===== src/Common.antt =====
-- The parts of the program under common/: secrets and the configuration store.
pub mod Crypto
pub mod Dsn
pub mod Connections
pub mod Tokens
pub mod Users
pub mod ObjectStore
