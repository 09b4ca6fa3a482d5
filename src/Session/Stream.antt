-- ===== src/Session/Stream.antt =====
-- src/session/stream.rs: one reliable ordered byte stream, its send and its receive side.
-- Bytes are only moved, so a byte is any number. `none` as a result of `read` is a panic: the slice
-- `data[skip..]` is taken past the end of the segment.
pub mod Send
pub mod Chunks
pub mod Reassembly
pub mod Delivery
pub mod Faults
mod Tests
use seam.Prelude.{
  ℕ, ◌+◌, ◌-◌, ◌*◌, min, List, [], ◌∷◌, ◌++◌, Option, none, some, Bool, true, false, not, ◌&&◌, ltb,
  leb, if◌then◌else◌, length, take, drop,
}
use seam.Prelude.Words.{add64, saturating_add}
use seam.Prelude.Map.{Map, insert}
use seam.Error.{Result, ok, err, stream_finished, flow_control_blocked}

abbrev pub Bytes : Type 0
Bytes = List ℕ

abbrev pub priority_default : ℕ
priority_default = 4

abbrev pub default_window : ℕ
default_window = 16 * 1024 * 1024

pub record Stream : Type 0 where
  pub id : ℕ
  pub priority : ℕ
  pub send_buf : Bytes
  pub send_offset : ℕ
  pub send_unacked_offset : ℕ
  pub send_max_data : ℕ
  pub recv_offset : ℕ
  pub recv_buf : Map Bytes
  pub recv_max_data : ℕ
  pub recv_buffered : ℕ
  pub fin_received : Option ℕ
  pub fin_sent : Bool
  pub fin_flushed : Bool

pub new : ℕ → Stream
new id = record {
  id = id;
  priority = priority_default;
  send_buf = [];
  send_offset = 0;
  send_unacked_offset = 0;
  send_max_data = default_window;
  recv_offset = 0;
  recv_buf = [];
  recv_max_data = default_window;
  recv_buffered = 0;
  fin_received = none;
  fin_sent = false;
  fin_flushed = false;
}

pub extend_send_window : Stream → ℕ → Stream
extend_send_window s new_limit =
    if ltb s.send_max_data new_limit then record s { send_max_data = new_limit } else s

pub send_window_remaining : Stream → ℕ
send_window_remaining s = s.send_max_data - s.send_offset

pub set_recv_limit : Stream → ℕ → Stream
set_recv_limit s limit = record s { recv_max_data = limit }

pub write : Stream → Bytes → Result ℕ × Stream
write s data' =
    if s.fin_sent
    then (err (stream_finished s.id), s)
    else if ltb s.send_max_data (saturating_add s.send_offset (length data'))
    then (err (flow_control_blocked (s.send_max_data - s.send_offset) (length data')), s)
    else (
      ok s.send_offset,
      record s { send_buf = s.send_buf ++ data'; send_offset = add64 s.send_offset (length data') },
    )

pub finish : Stream → Stream
finish s = record s { fin_sent = true }

abbrev is_empty : Bytes → Bool
is_empty [] = true
is_empty (b ∷ bs) = false

pub should_send_fin : Stream → Bool
should_send_fin s = s.fin_sent && (not s.fin_flushed && is_empty s.send_buf)

pub mark_fin_flushed : Stream → Stream
mark_fin_flushed s = record s { fin_flushed = true }

pub poll_send : Stream → ℕ → Option (ℕ × Bytes) × Stream
poll_send s max_bytes =
    if is_empty s.send_buf
    then (none, s)
    else let n = min (length s.send_buf) max_bytes in
      (
        some (s.send_offset - length s.send_buf, take n s.send_buf),
        record s { send_buf = drop n s.send_buf },
      )

pub on_ack : Stream → ℕ → Stream
on_ack s acked_offset =
    if ltb s.send_unacked_offset acked_offset
    then record s { send_unacked_offset = acked_offset }
    else s

-- The FIN position is recorded before any of the checks.
note_fin : Stream → ℕ → Bool → Stream
note_fin s end is_fin = if is_fin then record s { fin_received = some end } else s

pub receive : Stream → ℕ → Bytes → Bool → Result (Unit {0}) × Stream
unfolding note_fin
receive s offset data' is_fin =
    let high_offset = add64 offset (length data') in
    let s' = note_fin s high_offset is_fin in
    if is_empty data'
    then (ok tt, s')
    else if leb high_offset s.recv_offset
    then (ok tt, s')
    else if ltb s.recv_max_data high_offset
    then (
      err (flow_control_blocked (s.recv_max_data - s.recv_offset) (high_offset - s.recv_offset)),
      s',
    )
    else (
      ok tt,
      record s' {
        recv_buffered = saturating_add s.recv_buffered (length data');
        recv_buf = insert offset data' s.recv_buf;
      },
    )

-- What the loop of `read` has changed: the bytes appended to `out`, `recv_offset` and `recv_buf`.
pub record Progress : Type 0 where
  pub out : Bytes
  pub offset : ℕ
  pub buf : Map Bytes

-- `room` is `max_bytes - read`. Each round removes the first segment, also when not all of it fits.
pub read_loop : Map Bytes → ℕ → Bytes → ℕ → Option Progress
read_loop [] offset out room = some (record { out = out; offset = offset; buf = [] })
read_loop ((start, data') ∷ rest) offset out room =
    let skip = offset - start in
    let chunk = drop skip data' in
    let n = min (length chunk) room in
    let next = read_loop rest (add64 offset n) (out ++ take n chunk) (room - n) in
    let stop = some (record { out = out; offset = offset; buf = (start, data') ∷ rest }) in
    if leb room 0
    then stop
    else if ltb offset start
    then stop
    else if ltb (length data') skip
    then none
    else next

-- The number of bytes read is the length of what was appended.
pub read : Stream → ℕ → Option (Bytes × Stream)
unfolding read_loop
read s max_bytes = elim (read_loop s.recv_buf s.recv_offset [] max_bytes) [
  | none ↦ none
  | some p ↦ some (p.out, record s { recv_offset = p.offset; recv_buf = p.buf })
]

pub is_recv_finished : Stream → Bool
is_recv_finished s = elim s.fin_received [ none ↦ false | some fin_off ↦ leb fin_off s.recv_offset ]

pub is_send_finished : Stream → Bool
is_send_finished s = s.fin_sent && leb s.send_offset s.send_unacked_offset
