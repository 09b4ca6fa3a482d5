-- ===== src/Handshake.antt =====
-- src/handshake: what precedes a session.
pub mod Cookie
