-- ===== src/Win.antt =====
-- The dispatcher over a completion port: win_tcp_dispatcher.h and win_tcp_dispatcher.cpp.
pub mod State
pub mod Structures
pub mod Close
pub mod Transfer
pub mod Accept
pub mod Api
pub mod Loop
pub mod Schedule
pub mod Invariant
pub mod Protocol
pub mod Requests
pub mod Outcomes
pub mod Pending
