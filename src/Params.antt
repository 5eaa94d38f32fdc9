-- ===== src/Params.antt =====
-- src/master_parameters.c: decoding and checking of the Direct Parameter Page.
pub mod Wire
pub mod Capability
pub mod Page1
pub mod Codec
pub mod Selection
