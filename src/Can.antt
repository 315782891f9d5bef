-- ===== src/Can.antt =====
-- Classic CAN, cyphal/src/transport/can/legacy.rs.
pub mod Data
pub mod Receive
pub mod Transmit
pub mod Ids
pub mod Frames
pub mod Checksum
pub mod Safety
