-- ===== src/Sessions.antt =====
-- The session managers cyphal/src/transfer/heap_manager.rs and cyphal/src/transfer/std_vec.rs.
pub mod Api
pub mod Heap
pub mod StdVec
pub mod Same
pub mod Assembly
pub mod Extent
pub mod Subscriptions
pub mod Reachable
pub mod Routing
