-- ===== src/Demo.antt =====
-- The programs of examples/ and samples/, which run the library over PHYs of their own.
pub mod Loopback
pub mod Sample
pub mod Ports
pub mod Device
pub mod Replies
pub mod Ready
pub mod Run
pub mod Four
