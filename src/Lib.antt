-- ===== src/Lib.antt =====
-- Seam, an encrypted multipath transport: a model of its protocol core, with theorems about it.
--
-- The parts and how they interact. A packet goes out through `PacketEncoder::encode`
-- (src/crypto/encoder.rs) with keys from src/crypto/keys.rs, which src/crypto/rekey.rs rotates, and
-- comes in through `PacketDecoder::decode` (src/crypto/decoder.rs), which asks the window of
-- src/crypto/replay.rs before and tells it after the cipher has authenticated the packet. Before a
-- session there is the cookie of src/handshake/cookie.rs. A session (src/session) cuts application
-- bytes into chunks by streams (stream.rs) under a credit (flow.rs), acknowledges packets by ranges
-- (ack.rs), sends again what is not acknowledged (arq.rs) and carries datagrams (datagram.rs);
-- resume.rs holds the tickets with which a client resumes one. Its `flush` (src/session/mod.rs) seals
-- what all of these have to send, and `receive_packet` hands them what arrives; rack.rs is a second
-- detector of losses. Packets may be protected by forward error correction (src/fec), of which
-- the field arithmetic, the encoder and the decoder are modelled. src/transport/probe.rs finds the MTU
-- of a path, and src/transport/nat.rs the external address of a host.
--
-- Which file models which part:
--   Error, Packet        src/error.rs and src/packet.rs: the error enum, packet types and lengths.
--   Crypto/Replay        ReplayWindow: check, commit, check_and_insert over 16 words of 64 bits.
--   Crypto/Cipher        src/crypto/mod.rs: the cipher interface. BLAKE3, ChaCha20 and the AEAD ciphers
--                        are other packages' code, the parameter `Primitives`; `IsLawful` states what
--                        their documentation promises, and `Toy` is an instance of it.
--   Crypto/Keys          PacketKeys and header protection.
--   Crypto/Rekey         KeySchedule: prepare_next and rotate.
--   Crypto/Ratchet       DoubleRatchet: the chains of message keys and the steps between epochs.
--   Crypto/Encoder       PacketEncoder: encode, with the packet counter as state.
--   Crypto/Decoder       PacketDecoder: decode, with the buffer that it changes in place.
--   Handshake/Cookie     CookieFactory: generate and verify; clock and keyed hash are arguments.
--   Session/Flow         FlowWindow.
--   Session/Stream       Stream: the send side (write, poll_send, finish) and the receive side
--                        (receive, read); a read that panics is `none`.
--   Session/Datagram     DatagramQueue.
--   Session/Ack          AckRanges and parse_ack_frame.
--   Session/Arq          ArqTracker.
--   Session/Rack         RackTracker.
--   Session/Resume       SessionTicket and ResumeStore.
--   Session/State        src/session/mod.rs: the session's state, its streams and datagrams, send, read.
--   Session/Frames       stream_frame, as flush writes it, and handle_data_frame.
--   Session/Flushing     flush, a part for each kind of packet, in the order of the code.
--   Session/Receiving    receive_packet and handle_ack_frame.
--   Session/Run          the calls that change which streams there are, as a step relation.
--   Session/Sample       sessions with which the theorems are instantiated.
--   Transport/Probe      src/transport/probe.rs: PathProber.
--   Transport/Stun       src/transport/nat.rs: Binding Requests and Responses.
--   Fec/Field            src/fec/gf.rs: the tables and the arithmetic of bytes.
--   Fec/Wire             src/fec/codec.rs: repair packets and source envelopes as bytes.
--   Fec/Encoder          src/fec/codec.rs: FecEncoder.
--   Fec/Decoder          src/fec/codec.rs: gauss_rhs, GroupState and FecDecoder. Its children follow the
--                        elimination (Rows to Elimination), the equations of a group (Missing to
--                        Recovery) and the packets of a group as they arrive (Groups to EndToEnd).
--   Prelude              Boolean tests, lists, bits, bytes, buffers and maps that these share.
--
-- Words. Numbers are natural numbers; `u64` additions that could wrap are written `add64`, and
-- saturating ones `-` or `saturating_add`, as a release build computes them; a `debug_assert!`, as those
-- on the operands of `div` and on the lengths in `mul_add_slice`, is left out for the same reason. Bytes are numbers; that
-- they are below 256 is a hypothesis where a theorem needs it, as those on the field of src/fec/gf.rs
-- do. A mutable value is an argument and part of the result.
-- Times are arguments where the code reads a clock.
--
-- Fuel. The loop that makes room in a datagram queue takes fuel, because with a depth of 0 it does not
-- end; one round more than the depth is enough otherwise. The loops of `flush` over the chunks of a
-- stream and over the datagrams take fuel, and more than the bytes and the datagrams that are
-- pending is enough. The loop over the attributes of a STUN message takes fuel, one round more than
-- the bytes of the attributes, which is enough for any message. The other loops are recursive on the list or the count that they run over.
--
-- Order. A `HashMap` is a map in the order of its keys; `flush` takes the order of iteration as an
-- argument.
--
-- Not modelled: zeroizing of keys, tracing, sockets, tasks and the command-line program; arithmetic on
-- floating-point numbers (congestion control, pacing); the Noise, ML-KEM and ML-DSA packages and what
-- drives them; resumption and multipath on the transport, and of forward error correction the
-- inversion of matrices, which nothing calls, and the arbiter.
pub mod Prelude
pub mod Error
pub mod Packet
pub mod Crypto
pub mod Session
pub mod Handshake
pub mod Fec
pub mod Transport
