-- ===== src/Node.antt =====
-- cyphal/src/node.rs: a node over any transport and any transfer manager.
pub mod Data
pub mod Receive
pub mod Filter
pub mod Transmit
pub mod Entry
pub mod Interleaving
