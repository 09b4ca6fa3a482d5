-- ===== src/Session/State.antt =====
-- src/session/mod.rs: the state of a session and the calls on its streams and datagrams. The
-- `HashMap` of streams is a `Map`; where its iteration order matters, the order is an argument.
pub mod Credits
mod Tests
use seam.Prelude.{
  ℕ, ◌+◌, ◌*◌, ◌/◌, ◌%◌, List, [], Option, none, some, Bool, true, false, leb, if◌then◌else◌,
  length,
}
use seam.Prelude.Bytes.{u32_mod, u64_mod}
use seam.Prelude.Map.{Map, lookup, insert}
use seam.Error.{Result, ok, err, buffer_too_small, unknown_stream}
use seam.Packet.{PktType}
use seam.Crypto.Cipher.{Primitives}
use seam.Crypto.Encoder.{PacketEncoder, encode}
use seam.Crypto.Decoder.{PacketDecoder}
use seam.Session.Flow
use seam.Session.Flow.{FlowWindow, reserve}
use seam.Session.Stream
use seam.Session.Stream.{Stream, priority_default}
use seam.Session.Datagram
use seam.Session.Datagram.{DatagramQueue, Datagram, queued, too_large}
use seam.Session.Ack
use seam.Session.Ack.{AckRanges}
use seam.Session.Arq
use seam.Session.Arq.{ArqTracker}

pub data Role : Type 0 where
  client server : Role

-- "Parity bit of locally-initiated stream IDs (Client=1 odd, Server=0 even)."
unfoldable pub local_parity : Role → ℕ
local_parity client = 1
local_parity server = 0

pub record SessionLimits : Type 0 where
  pub max_streams : ℕ
  pub max_datagram_size : ℕ
  pub max_datagram_queue : ℕ
  pub max_in_flight_packets : ℕ
  pub max_recv_buffer_per_stream : ℕ

abbrev pub default_limits : SessionLimits
default_limits = record {
  max_streams = 1024;
  max_datagram_size = 1200;
  max_datagram_queue = 64;
  max_in_flight_packets = 10_000;
  max_recv_buffer_per_stream = 4 * 1024 * 1024;
}

abbrev pub default_window : ℕ
default_window = 16_777_216

-- `pending_cc_ack` holds bytes and a duration in nanoseconds.
pub record Session : Type 0 where
  pub id : ℕ
  pub role : Role
  pub encoder : PacketEncoder
  pub decoder : PacketDecoder
  pub streams : Map Stream
  pub next_stream_id : ℕ
  pub send_window : FlowWindow
  pub recv_window : FlowWindow
  pub recv_consumed : ℕ
  pub pending_max_data : Option ℕ
  pub pending_pong : Bool
  pub pending_ping : Bool
  pub arq : ArqTracker
  pub datagrams : DatagramQueue
  pub limits : SessionLimits
  pub ack_ranges : AckRanges
  pub pending_cc_ack : Option (ℕ × ℕ)

unfoldable pub first_stream_id : Role → ℕ
first_stream_id client = 1
first_stream_id server = 2

unfoldable pub with_limits : ℕ → Role → PacketEncoder → PacketDecoder → SessionLimits → Session
unfolding first_stream_id
with_limits id role encoder decoder limits = record {
  id = id;
  role = role;
  encoder = encoder;
  decoder = decoder;
  streams = [];
  next_stream_id = first_stream_id role;
  send_window = Flow.new default_window;
  recv_window = Flow.new default_window;
  recv_consumed = 0;
  pending_max_data = none;
  pending_pong = false;
  pending_ping = false;
  arq = Arq.new;
  datagrams = Datagram.with_limits limits.max_datagram_size limits.max_datagram_queue;
  limits = limits;
  ack_ranges = Ack.new;
  pending_cc_ack = none;
}

pub with_role : ℕ → Role → PacketEncoder → PacketDecoder → Session
with_role id role encoder decoder = with_limits id role encoder decoder default_limits

pub new : ℕ → PacketEncoder → PacketDecoder → Session
new id encoder decoder = with_limits id client encoder decoder default_limits

-- `self.streams.len() as u32 >= self.limits.max_streams`
unfoldable pub is_full : Session → Bool
is_full s = leb s.limits.max_streams (length s.streams % u32_mod)

-- "Fallible variant; returns None if max_streams would be exceeded."
unfoldable pub try_open_stream_with_priority : Session → ℕ → Option ℕ × Session
unfolding is_full
try_open_stream_with_priority s priority = if is_full s then (none, s) else (
  some s.next_stream_id,
  record s {
    next_stream_id = (s.next_stream_id + 2) % u32_mod;
    streams =
        insert s.next_stream_id (record (Stream.new s.next_stream_id) { priority = priority })
          s.streams;
  },
)

-- `none` is the panic of `expect("stream limit exceeded")`.
pub open_stream_with_priority : Session → ℕ → Option (ℕ × Session)
open_stream_with_priority s priority =
    let (id, s') = try_open_stream_with_priority s priority in
    elim id [ none ↦ none | some stream_id ↦ some (stream_id, s') ]

pub open_stream : Session → Option (ℕ × Session)
open_stream s = open_stream_with_priority s priority_default

pub push_stream : Session → Option (ℕ × Session)
push_stream s = open_stream s

-- `none` means that the loop that makes room in the queue has not ended within the fuel.
pub send_datagram : ℕ → Session → Datagram → Option (Result (Unit {0}) × Session)
send_datagram fuel s d = elim (Datagram.send fuel s.datagrams d) [
  | none ↦ none
  | some (result, q) ↦ some (
    elim result [
      | queued ↦ ok tt
      | too_large size ↦ err (buffer_too_small size s.limits.max_datagram_size)
    ],
    record s { datagrams = q },
  )
]

pub recv_datagram : Session → Option Datagram × Session
recv_datagram s = let (d, q) = Datagram.recv s.datagrams in (d, record s { datagrams = q })

pub datagram_stats : Session → ℕ × ℕ × ℕ
datagram_stats s =
    (Datagram.send_pending s.datagrams, Datagram.recv_pending s.datagrams, s.datagrams.dropped)

-- "Write `data` into a stream's send buffer." The connection's credit is reserved first.
unfoldable pub send : Session → ℕ → List ℕ → Result (Unit {0}) × Session
send s stream_id data' =
    let (reserved, window) = reserve s.send_window (length data') in
    let s' = record s { send_window = window } in
    elim reserved [
      | err e ↦ (err e, s')
      | ok _ ↦ elim (lookup stream_id s.streams) [
        | none ↦ (err (unknown_stream stream_id), s')
        | some stream ↦
            let (written, stream') = Stream.write stream data' in
            let s'' = record s' { streams = insert stream_id stream' s.streams } in
            elim written [ err e ↦ (err e, s'') | ok _ ↦ (ok tt, s'') ]
      ]
    ]

unfoldable pub finish_stream : Session → ℕ → Session
finish_stream s stream_id = elim (lookup stream_id s.streams) [
  | none ↦ s
  | some stream ↦ record s { streams = insert stream_id (Stream.finish stream) s.streams }
]

-- The bytes that are appended to `out`; `none` is a panic of the stream's `read`.
unfoldable pub read : Session → ℕ → ℕ → Option (Result (List ℕ) × Session)
read s stream_id max_bytes = elim (lookup stream_id s.streams) [
  | none ↦ some (err (unknown_stream stream_id), s)
  | some stream ↦ elim (Stream.read stream max_bytes) [
    | none ↦ none
    | some (out, stream') ↦ some (ok out, record s { streams = insert stream_id stream' s.streams })
  ]
]

pub ping : Session → Session
ping s = record s { pending_ping = true }

pub drain_cc_ack : Session → Option (ℕ × ℕ) × Session
drain_cc_ack s = (s.pending_cc_ack, record s { pending_cc_ack = none })

pub drain_retransmits : ℕ → Session → List (ℕ × List ℕ) × Session
drain_retransmits now s =
    let (expired, arq) = Arq.drain_expired now s.arq in (expired, record s { arq = arq })

pub has_pending_ack : Session → Bool
has_pending_ack s = Ack.has_pending_ack s.ack_ranges

pub has_pending_max_data : Session → Bool
has_pending_max_data s = elim s.pending_max_data [ none ↦ false | some limit ↦ true ]

-- The result, the encoder's counter and `out` after the call.
pub encode_raw : Primitives → Session → PktType → List ℕ → List ℕ → Result ℕ × Session × List ℕ
encode_raw P s pkt_type payload out =
    let (result, encoder, out') = encode P s.encoder pkt_type payload out in
    (result, record s { encoder = encoder }, out')

pub arq_in_flight : Session → ℕ
arq_in_flight s = Arq.in_flight_count s.arq

pub srtt_us : Session → ℕ
srtt_us s = Arq.srtt s.arq / 1_000 % u64_mod
