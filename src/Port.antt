-- ===== src/Port.antt =====
-- src/master_port.c: the state machine of one port.
pub mod Timing
pub mod Line
pub mod Establish
pub mod Frames
pub mod Process
pub mod Init
pub mod Receive
pub mod Tick
pub mod Status
pub mod Transitions
pub mod Deadlines
pub mod Attempts
pub mod Reliable
pub mod Retries
pub mod Sending
pub mod Edges
pub mod Reach
pub mod Poll
pub mod Layout
pub mod Device
pub mod Wake
pub mod Operate
pub mod Answers
pub mod BringUp
pub mod Arrive
pub mod Exchange
pub mod Cycle
pub mod Inputs
