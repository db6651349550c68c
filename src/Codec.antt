-- ===== src/Codec.antt =====
-- src/codec.rs: the exact reader, the canonical integers, and the weight codec shared by the artifacts.
-- Bytes are numbers below 256. `usize` has 64 bits here.
pub mod Reader
pub mod Varint
pub mod Weights
