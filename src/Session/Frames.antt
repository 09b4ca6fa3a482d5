-- ===== src/Session/Frames.antt =====
-- src/session/mod.rs: the frame that carries a chunk of a stream, as `flush` writes it and
-- `handle_data_frame` reads it: type, flags, length, stream, offset, and the data.
pub mod Chunk
mod Tests
use seam.Prelude.{
  ℕ, ◌+◌, ◌*◌, ◌%◌, List, [], ◌∷◌, ◌++◌, Option, none, some, Bool, true, false, not, ◌||◌, leb, ltb,
  ◌==◌, if◌then◌else◌, length, get_or,
}
use seam.Prelude.Bytes.{u16_mod, to_le, from_le, slice}
use seam.Prelude.Words.{add64, mul64}
use seam.Prelude.Map.{lookup, insert}
use seam.Error.{SeamError, Result, ok, err, protocol_violation}
use seam.Session.Flow.{FlowWindow}
use seam.Session.Stream
use seam.Session.Stream.{Stream, is_recv_finished}
use seam.Session.State.{Session, default_window, local_parity, is_full}

pub data SessionEvent : Type 0 where
  new_stream data_available stream_finished : ℕ → SessionEvent
  datagram_received : SessionEvent
  session_ticket : List ℕ → SessionEvent
  closed : SessionEvent
  path_challenge_received path_response_received : ℕ → SessionEvent

abbrev pub flag : Bool → ℕ
flag is_fin = if is_fin then 0x01 else 0x00

unfoldable pub stream_frame : ℕ → ℕ → List ℕ → Bool → List ℕ
stream_frame sid offset chunk is_fin =
    (0x01 ∷ flag is_fin ∷ [])
    ++ (to_le 2 (length chunk % u16_mod) ++ (to_le 4 sid ++ (to_le 8 offset ++ chunk)))

abbrev pub has_stream : Session → ℕ → Bool
has_stream s stream_id = elim (lookup stream_id s.streams) [ none ↦ false | some stream ↦ true ]

abbrev pub stream_or_new : Session → ℕ → Stream
stream_or_new s stream_id = elim (lookup stream_id s.streams) [
  | none ↦ Stream.new stream_id
  | some stream ↦ stream
]

-- The values in the messages are not modelled.
abbrev pub wrong_parity : SeamError
wrong_parity =
    protocol_violation "stream parity matches local role; remote must use opposite parity"

abbrev pub too_many : SeamError
too_many = protocol_violation "peer opened stream, exceeding max_streams"

-- A stream that is not known is refused for its parity, or where there are too many.
abbrev pub refusal : Session → ℕ → Option SeamError
refusal s stream_id = elim (lookup stream_id s.streams) [
  | some stream ↦ none
  | none ↦
      if stream_id % 2 == local_parity s.role
      then some wrong_parity
      else if is_full s
      then some too_many
      else none
]

-- "Track receive-side consumption and schedule a MaxData when the peer's send window is 50%
-- consumed".
unfoldable pub note_consumed : Session → ℕ → Session
note_consumed s data_len =
    let consumed = add64 s.recv_consumed data_len in
    let due : Bool = elim s.pending_max_data [
      | none ↦ ltb s.recv_window.limit (mul64 consumed 2)
      | some limit ↦ false
    ] in
    record s {
      recv_consumed = consumed;
      pending_max_data = if due then some (add64 consumed default_window) else s.pending_max_data;
    }

abbrev pub finished_events : Bool → ℕ → List SessionEvent
finished_events done stream_id = if done then stream_finished stream_id ∷ [] else []

-- What follows the checks: a stream for the data, made where it is missing, takes the data.
unfoldable pub deliver : Session → ℕ → ℕ → List ℕ → Bool → Result (List SessionEvent) × Session
unfolding note_consumed
deliver s stream_id offset data' is_fin =
    let opened = if has_stream s stream_id then [] else new_stream stream_id ∷ [] in
    let (received, stream) = Stream.receive (stream_or_new s stream_id) offset data' is_fin in
    let s' = note_consumed s (length data') in
    let s'' = record s' { streams = insert stream_id stream s.streams } in
    elim received [
      | err e ↦ (err e, s'')
      | ok _ ↦ (
        ok (
            opened
            ++ (data_available stream_id ∷ [])
            ++ finished_events (is_fin || is_recv_finished stream) stream_id),
        s'',
      )
    ]

abbrev pub is_odd : ℕ → Bool
is_odd n = n % 2 == 1

unfoldable pub handle_data_frame : Session → List ℕ → Result (List SessionEvent) × Session
unfolding deliver
handle_data_frame s frame =
    let data_len = from_le (slice frame 2 4) in
    let stream_id = from_le (slice frame 4 8) in
    let offset = from_le (slice frame 8 16) in
    let is_fin = is_odd (get_or frame 1 0) in
    if ltb (length frame) 16
    then (ok [], s)
    else if ltb (length frame) (16 + data_len)
    then (ok [], s)
    else elim (refusal s stream_id) [
      | some e ↦ (err e, s)
      | none ↦ deliver s stream_id offset (slice frame 16 (16 + data_len)) is_fin
    ]
