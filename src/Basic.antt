-- ===== src/Basic.antt =====
-- The basic example, examples/basic/src/main.rs: a node on a socketcan interface.
pub mod Api
pub mod Main
pub mod Turns
