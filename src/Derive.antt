-- ===== src/Derive.antt =====
-- The derive macro of uavcan-derive/src/lib.rs, and the code it makes.
pub mod Struct
pub mod Progress
pub mod Order
pub mod Serializable
pub mod Deserialize
pub mod Reading
pub mod RoundTrip
pub mod Syn
pub mod Patterns
pub mod Classify
pub mod Expand
pub mod Misclassified
pub mod Faithful
