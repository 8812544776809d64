-- ===== src/Biocp.antt =====
-- The dispatcher with a thread of its own for new connections: tcp_dispatcher_biocp.h and
-- tcp_dispatcher_biocp.cpp.
pub mod State
pub mod Close
pub mod Transfer
pub mod Accept
pub mod Api
pub mod Listening
pub mod Loop
pub mod Schedule
pub mod Invariant
pub mod Protocol
pub mod Requests
pub mod Packets
pub mod Hearing
