-- ===== src/Bitfields.antt =====
-- The bit patterns of cyphal/src/transport/can/bitfields.rs, a module for each of its three types.
pub mod CanMessageId
pub mod CanServiceId
pub mod TailByte
