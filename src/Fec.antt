-- ===== src/Fec.antt =====
-- src/fec: forward error correction.
pub mod Field
pub mod Wire
pub mod Encoder
pub mod Decoder
