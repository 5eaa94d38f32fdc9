-- ===== src/Lib.antt =====
-- A verification library for iolinki-master, an IO-Link master in C.
--
-- The program is a library that a host ticks. A port (src/master_port.c) wakes a device, scans the
-- transmission rates, validates the device in PREOPERATE and exchanges cyclic frames in OPERATE.
-- The acyclic services, ISDU, Data Storage, block parameters and events (src/master_isdu.c),
-- travel in the on-request octets of those frames. The Direct Parameter Page
-- (src/master_parameters.c) tells what the device can do and selects a configuration. SIO
-- (src/master_sio.c) drives or reads the line, the controller (src/master_controller.c) ticks
-- several ports, and the gateway (src/master_gateway.c) prints a status line. The structures stand
-- in include/iolinki_master/master.h and src/master_internal.h.
--
-- The files:
--   Base, Bytes        C integers, arrays as lists, tests, facts on octets
--   Iolinki            the device-stack library that the code calls, as a parameter
--   Types              result codes, limits, configuration and state records, zero values
--   Params             src/master_parameters.c: Wire, Capability and Page1 are the code; Codec
--                      and Selection are proofs
--   Isdu               src/master_isdu.c: Transport, Service, DataStorage and Block are the code;
--                      Request, WriteRequest, Segments, Inside and Bounds are proofs on the
--                      transport; Collecting, Response, Answer, Pieces, ReadBack, WriteBack and
--                      Refused follow a response from its octets to the caller; Records and
--                      Restore are proofs on Data Storage images, Transfer and Latch on the
--                      parameter-block transfer
--   Event              the event part of src/master_isdu.c: Transport and Service are the code;
--                      Memory holds proofs on the buffer, Confirm on the acknowledgement, Slots,
--                      Copy and Readout on a readout against the memory of a device
--   Port               src/master_port.c and src/master_sio.c: Timing, Line, Establish, Frames,
--                      Process, Init, Receive, Tick and Status are the code; Transitions, Sending,
--                      Edges and Reach are proofs on the state diagram, Poll on the reception, Layout
--                      on the messages that are sent, Attempts, Retries and Deadlines on counters and
--                      clocks, the first two over Reliable, a PHY that reports success;
--                      Device says what a device that answers does; Wake, Operate, Answers and BringUp
--                      follow the establishing of communication with it, Arrive, Exchange, Cycle and
--                      Inputs a cyclic exchange
--   Controller         src/master_controller.c; Loops holds proofs
--   Gateway            src/master_gateway.c; Text holds proofs
--   Demo               the programs of examples and samples: Loopback
--                      (examples/master_loopback_demo.c), Sample (samples/iolink_master/src/main.c)
--                      and Ports (examples/master_4port_controller_demo.c) are the code; Device and
--                      Replies are about the simulated devices, Ready, Run and Four about the runs
--   Tests              a library instance, a port, a device, and the theorems at these
--
-- A function of the code has its name here without the prefix `iolink_master_`; part of a function
-- that stands on its own is a helper with a name of its own. A function returns its result beside
-- the new state. `Port W` is the port structure and `Sys W` is a port with the outside world `W`,
-- on which the PHY and the callbacks of the configuration act; a callback that may be NULL is an
-- option, and so is a data pointer that the code tests.
--
-- Integers are natural numbers with the wrap-around of their width written out. A write out of the
-- bounds of an array changes nothing. The loop of `poll_rx` reads octets until the PHY has none,
-- which the code does not bound, so it runs on fuel and returns `none` when that runs out; fuel for
-- one octet more than the PHY has pending is enough (Port/Poll). The walks over a Data Storage image
-- run on fuel too: each step takes at least the four octets of a header, and the fuel is more than
-- the image is long. The other loops recur on their data.
--
-- Not modelled: the guards against a NULL port and against NULL result pointers; the members
-- `isdu_timeout_100us` and `event_user`, which no function uses or which only a callback sees; the
-- device-stack library `iolinki`, which is not part of the repository; what the programs of
-- examples and samples print; tests, the Zephyr module and the tools.
pub mod Base
pub mod Bytes
pub mod Iolinki
pub mod Types
pub mod Params
pub mod Isdu
pub mod Event
pub mod Port
pub mod Controller
pub mod Gateway
pub mod Demo
pub mod Tests
