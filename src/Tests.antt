-- ===== src/Tests.antt =====
-- Concrete data for the tests of src/tests: a library, a port and a device.
pub mod Instance
pub mod Params
pub mod Isdu
pub mod Event
pub mod Port
pub mod Controller
pub mod Gateway
pub mod Demo
pub mod Services
