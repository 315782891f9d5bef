-- ===== src/Firmware.antt =====
-- The firmware of examples/embedded: its clock, and the loop that publishes.
pub mod Api
pub mod Clock
pub mod Publish
pub mod Sending
pub mod Main
