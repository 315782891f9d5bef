-- ===== src/Link.antt =====
-- Two nodes over classic CAN: what one sends, the other receives.
pub mod Sender
pub mod Receiver
pub mod Exchange
pub mod Delivery
pub mod Loop
pub mod Start
pub mod Whole
pub mod Split
pub mod RoundTrip
pub mod Interleaved
pub mod Sending
pub mod Robust
