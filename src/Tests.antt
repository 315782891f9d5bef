-- ===== src/Tests.antt =====
-- Concrete runs, and the theorems at concrete inputs.
pub mod Concrete
pub mod Nodes
mod Crc
mod Can
mod Link
mod Interleaved
mod Manager
mod Packing
mod Fd
mod Sessions
mod Time
mod Derive
mod Firmware
mod Basic
mod Macro
