-- ===== src/Time.antt =====
-- The clocks of cyphal/src/time.rs.
pub mod TestClock
pub mod StdClock
