-- ===== src/Isdu.antt =====
-- src/master_isdu.c: the ISDU services.
pub mod Transport
pub mod Service
pub mod DataStorage
pub mod Block
pub mod Request
pub mod WriteRequest
pub mod Inside
pub mod Bounds
pub mod Segments
pub mod Records
pub mod Restore
pub mod Collecting
pub mod Response
pub mod Answer
pub mod Pieces
pub mod ReadBack
pub mod Transfer
pub mod Latch
pub mod Refused
pub mod WriteBack
