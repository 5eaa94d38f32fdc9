-- ===== src/Types.antt =====
-- The data of the master: result codes, configuration, port state.
pub mod Codes
pub mod Limits
pub mod Config
pub mod State
pub mod Zero
