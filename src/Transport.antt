-- ===== src/Transport.antt =====
-- src/transport: what finds out about a path.
pub mod Probe
pub mod Stun
