-- ===== src/MapManager.antt =====
-- cyphal/src/transfer/map_manager.rs: the transfer manager over hash maps.
pub mod State
pub mod Receive
pub mod Transmit
pub mod Timeout
pub mod Kept
pub mod Reachable
pub mod Failure
pub mod Expiry
pub mod Tokens
pub mod Table
pub mod Refinement
