-- ===== src/Crypto.antt =====
-- src/crypto: packet protection. The modules below model its parts.
pub mod Replay
pub mod Cipher
pub mod Keys
pub mod Rekey
pub mod Ratchet
pub mod Encoder
pub mod Decoder
