-- ===== src/Session.antt =====
-- src/session: streams, flow control, acknowledgements, loss detection and datagrams.
pub mod Flow
pub mod Stream
pub mod Datagram
pub mod Ack
pub mod Arq
pub mod Resume
pub mod Rack
pub mod State
pub mod Frames
pub mod Run
pub mod Flushing
pub mod Receiving
mod Sample
