-- ===== src/Fd.antt =====
-- CAN FD, cyphal/src/transport/can/fd.rs. The module is disabled in cyphal/src/transport/can/mod.rs.
pub mod ArrayVec
pub mod Api
pub mod Frame
pub mod Receive
pub mod Iterator
pub mod Padding
pub mod Steps
pub mod Single
pub mod Several
pub mod Ids
pub mod Stale
pub mod Reading
pub mod RoundTrip
