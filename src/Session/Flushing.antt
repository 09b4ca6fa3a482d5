-- ===== src/Session/Flushing.antt =====
-- src/session/mod.rs: `flush`, which turns what is pending into packets. `none` stands for a loop
-- that has not ended within its fuel and for the panic of `unwrap` on a stream that is not there.
-- `order` lists the keys of the `HashMap` of streams in the order of its iteration.
pub mod Unsent
pub mod Drain
pub mod Ends
pub mod Done
mod Tests
use seam.Prelude.{
  ℕ, zero, suc, ◌+◌, ◌-◌, List, [], ◌∷◌, ◌++◌, Option, none, some, Bool, true, false, leb,
  if◌then◌else◌, length, take, replicate,
}
use seam.Prelude.Bytes.{to_le, from_le}
use seam.Prelude.Map.{Map, lookup, insert}
use seam.Error.{Result, ok, err}
use seam.Packet.{PktType, data_frame, datagram, ack, max_data, pong, ping}
use seam.Crypto.Cipher.{Primitives}
use seam.Crypto.Encoder.{PacketEncoder, encode}
use seam.Session.Flow
use seam.Session.Stream
use seam.Session.Stream.{Stream}
use seam.Session.Datagram
use seam.Session.Ack
use seam.Session.Arq
use seam.Session.State
use seam.Session.State.{Session}
use seam.Session.Frames.{stream_frame}

abbrev pub max_payload : ℕ
max_payload = 1400

pub record TaggedPacket : Type 0 where
  pub is_control : Bool
  pub bytes : List ℕ

-- The packets that a part of `flush` adds, or its error.
abbrev pub Flushed : Type 0
Flushed = Result (List TaggedPacket) × Session

abbrev pub prepend : List TaggedPacket → Result (List TaggedPacket) → Result (List TaggedPacket)
prepend ps (err e) = err e
prepend ps (ok qs) = ok (ps ++ qs)

abbrev pub onto : List TaggedPacket → Option Flushed → Option Flushed
onto ps none = none
onto ps (some (r, s)) = some (prepend ps r, s)

-- What follows a part that succeeds; an error ends `flush`.
abbrev pub and_then : Flushed → (Session → Option Flushed) → Option Flushed
and_then (err e, s) f = some (err e, s)
and_then (ok ps, s) f = onto ps (f s)

abbrev pub followed_by : Option Flushed → (Session → Option Flushed) → Option Flushed
followed_by none f = none
followed_by (some r) f = and_then r f

-- `to_be_bytes` of a word of eight bytes.
abbrev reverse_onto : List ℕ → List ℕ → List ℕ
reverse_onto [] acc = acc
reverse_onto (b ∷ bs) acc = reverse_onto bs (b ∷ acc)

abbrev pub to_be : ℕ → List ℕ
to_be v = reverse_onto (to_le 8 v) []

abbrev pub from_be : List ℕ → ℕ
from_be bs = from_le (reverse_onto bs [])

abbrev pub priority_of : Map Stream → ℕ → ℕ
priority_of m id = elim (lookup id m) [ none ↦ 0 | some stream ↦ stream.priority ]

abbrev pub insert_by_priority : Map Stream → ℕ → List ℕ → List ℕ
insert_by_priority m id [] = id ∷ []
insert_by_priority m id (x ∷ xs) =
    let rest = insert_by_priority m id xs in
    if leb (priority_of m id) (priority_of m x) then id ∷ x ∷ xs else x ∷ rest

-- `stream_ids.sort_by_key(|id| self.streams[id].priority)`, a stable sort.
pub sort_by_priority : Map Stream → List ℕ → List ℕ
sort_by_priority m [] = []
sort_by_priority m (id ∷ ids) = insert_by_priority m id (sort_by_priority m ids)

module _ (P : Primitives) (now : ℕ) where
  -- `let mut out = vec![0u8; 32 + frame.len() + 16]; let n = encode(..)?; out.truncate(n);`
  unfoldable pub seal : PktType → List ℕ → PacketEncoder → Result (List ℕ) × PacketEncoder
  seal t frame e =
      let (written, e', out) = encode P e t frame (replicate (32 + length frame + 16) 0) in
      (elim written [ err failure ↦ err failure | ok n ↦ ok (take n out) ], e')

  -- A packet that is not tracked for retransmission.
  unfoldable pub emit : PktType → Bool → List ℕ → Session → Flushed
  emit t is_control frame s =
      let (sealed, e') = seal t frame s.encoder in
      (
        elim sealed [
          | err failure ↦ err failure
          | ok out ↦ ok (record { is_control = is_control; bytes = out } ∷ [])
        ],
        record s { encoder = e' },
      )

  -- A data packet; the tracker keeps its encrypted bytes.
  unfoldable pub emit_tracked : List ℕ → Session → Flushed
  emit_tracked frame s =
      let (sealed, e') = seal data_frame frame s.encoder in
      let s' = record s { encoder = e' } in
      elim sealed [
        | err failure ↦ (err failure, s')
        | ok out ↦ (
          ok (record { is_control = false; bytes = out } ∷ []),
          record s' { arq = Arq.on_sent now s.arq (s.encoder.next_pkt_num) out },
        )
      ]

  -- `loop { .. poll_send(MAX_PAYLOAD - 14) .. }` for the stream `sid`.
  pub drain_stream : ℕ → ℕ → Session → Option Flushed
  unfolding emit_tracked
  drain_stream zero sid s = none
  drain_stream (suc fuel) sid s =
      let next : Session → Option Flushed = drain_stream fuel sid in
      elim (lookup sid s.streams) [
        | none ↦ none
        | some stream ↦
            let (polled, stream') = Stream.poll_send stream (max_payload - 14) in
            let s' = record s { streams = insert sid stream' s.streams } in
            elim polled [
              | none ↦ some (ok [], s')
              | some (offset, chunk) ↦
                  and_then (emit_tracked (stream_frame sid offset chunk false) s') next
            ]
      ]

  -- "emit a zero-byte FIN frame if the stream is finished"
  pub flush_fin : ℕ → Session → Option Flushed
  unfolding emit_tracked
  flush_fin sid s = elim (lookup sid s.streams) [
    | none ↦ none
    | some stream ↦
        if Stream.should_send_fin stream
        then some (
            emit_tracked (stream_frame sid stream.send_offset [] true)
              (record s { streams = insert sid (Stream.mark_fin_flushed stream) s.streams }))
        else some (ok [], s)
  ]

  pub flush_streams : ℕ → List ℕ → Session → Option Flushed
  unfolding drain_stream flush_fin
  flush_streams fuel [] s = some (ok [], s)
  flush_streams fuel (sid ∷ sids) s =
      let rest : Session → Option Flushed = flush_streams fuel sids in
      followed_by (followed_by (drain_stream fuel sid s) (flush_fin sid)) rest

  -- "one per wire packet, encrypted as PktType::Datagram"
  pub flush_datagrams : ℕ → Session → Option Flushed
  unfolding emit
  flush_datagrams zero s = none
  flush_datagrams (suc fuel) s =
      let next : Session → Option Flushed = flush_datagrams fuel in
      let (polled, q) = Datagram.poll_send s.datagrams in
      let s' = record s { datagrams = q } in
      elim polled [ none ↦ some (ok [], s') | some d ↦ and_then (emit datagram false d s') next ]

  pub flush_ack : Session → Flushed
  unfolding emit
  flush_ack s =
      let (frame, ranges) = Ack.build_frame now s.ack_ranges in
      if Ack.has_pending_ack s.ack_ranges
      then emit ack true frame (record s { ack_ranges = ranges })
      else (ok [], s)

  -- The window's limit is raised once the frame is sealed.
  pub flush_max_data : Session → Flushed
  unfolding emit
  flush_max_data s = elim s.pending_max_data [
    | none ↦ (ok [], s)
    | some new_limit ↦
        let (r, s') = emit max_data true (to_be new_limit) (record s { pending_max_data = none }) in
        elim r [
          | err e ↦ (err e, s')
          | ok ps ↦ (ok ps, record s' { recv_window = Flow.update_limit s'.recv_window new_limit })
        ]
  ]

  pub flush_pong : Session → Flushed
  unfolding emit
  flush_pong s =
      if s.pending_pong then emit pong true [] (record s { pending_pong = false }) else (ok [], s)

  pub flush_ping : Session → Flushed
  unfolding emit
  flush_ping s =
      if s.pending_ping then emit ping true [] (record s { pending_ping = false }) else (ok [], s)

  abbrev pub once : (Session → Flushed) → Session → Option Flushed
  once f s = some (f s)

  pub flush : ℕ → List ℕ → Session → Option Flushed
  unfolding flush_streams flush_datagrams flush_ack flush_max_data flush_pong flush_ping
      sort_by_priority
  flush fuel order s =
      followed_by
        (followed_by
          (followed_by
            (followed_by
              (followed_by (flush_streams fuel (sort_by_priority s.streams order) s)
                (flush_datagrams fuel))
              (once flush_ack))
            (once flush_max_data))
          (once flush_pong))
        (once flush_ping)
