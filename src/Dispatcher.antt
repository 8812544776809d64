-- ===== src/Dispatcher.antt =====
-- The dispatcher for POSIX: tcp_dispatcher.h and tcp_dispatcher.cpp.
pub mod Close
pub mod Start
pub mod Transfer
pub mod Accept
pub mod Api
pub mod Loop
pub mod Schedule
pub mod Invariant
pub mod Protocol
pub mod Requests
pub mod Stopping
pub mod Closing
pub mod Starving
pub mod Reading
pub mod Waking
