-- ===== src/Event.antt =====
-- src/master_isdu.c: the event-memory readout on the diagnosis channel.
pub mod Transport
pub mod Service
pub mod Memory
pub mod Confirm
pub mod Slots
pub mod Copy
pub mod Readout
