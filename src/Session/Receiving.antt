-- ===== src/Session/Receiving.antt =====
-- src/session/mod.rs: `receive_packet` and the handler of acknowledgements. `none` means that making
-- room in the queue of datagrams has not ended within the fuel.
pub mod Releases
pub mod Arrives
mod Tests
use seam.Prelude.{
  ℕ, zero, suc, ◌+◌, ◌-◌, ◌*◌, List, [], ◌∷◌, Option, none, some, Bool, true, false, ltb, leb,
  if◌then◌else◌, min, length,
}
use seam.Prelude.Bytes.{from_le, slice}
use seam.Prelude.Words.{add64}
use seam.Error.{Result, ok, err}
use seam.Packet.{
  PktType, initial, handshake, data_frame, ack, fec_repair, chaff, path_probe, close, datagram,
  key_update, max_data, ping, pong, session_ticket, svc_resume, svc_resume_ok, path_challenge,
  path_response,
}
use seam.Crypto.Cipher.{Primitives}
use seam.Crypto.Decoder.{decode}
use seam.Session.Flow
use seam.Session.Datagram
use seam.Session.Ack
use seam.Session.Ack.{parse_ack_frame}
use seam.Session.Arq
use seam.Session.Arq.{ArqTracker, millis}
use seam.Session.State.{Session}
use seam.Session.Frames
use seam.Session.Frames.{
  SessionEvent, datagram_received, closed, path_challenge_received, path_response_received,
  handle_data_frame,
}
use seam.Session.Flushing.{from_be}

-- What the loops of `handle_ack_frame` change: the tracker, `total_bytes` and `rtt_sample`.
pub record AckProgress : Type 0 where
  pub arq : ArqTracker
  pub total_bytes : ℕ
  pub rtt_sample : Option ℕ

-- "Prefer a genuine RTT sample over a Karn-excluded zero."
abbrev pub note_acked : Option (ℕ × ℕ) × ArqTracker → AckProgress → AckProgress
note_acked (none, arq) p = record p { arq = arq }
note_acked (some (rtt, bytes), arq) p = record {
  arq = arq;
  total_bytes = add64 p.total_bytes bytes;
  rtt_sample = if ltb 0 rtt then some rtt else p.rtt_sample;
}

module _ (now : ℕ) where
  -- The `count` numbers from `pn` on.
  pub ack_numbers : ℕ → ℕ → AckProgress → AckProgress
  ack_numbers zero pn p = p
  ack_numbers (suc count) pn p = ack_numbers count (suc pn) (note_acked (Arq.on_ack now p.arq pn) p)

  -- `for (start, end) in ranges { for pn in start..=end { .. } }`
  pub ack_ranges : List (ℕ × ℕ) → AckProgress → AckProgress
  unfolding ack_numbers
  ack_ranges [] p = p
  ack_ranges ((start, end_) ∷ ranges) p = ack_ranges ranges (ack_numbers (suc end_ - start) start p)

  abbrev pub fallback : Option ℕ → ℕ
  fallback none = millis 100
  fallback (some rtt) = rtt

  -- "Merge with any already-pending CC feedback".
  abbrev pub merged : Option (ℕ × ℕ) → ℕ → ℕ → ℕ × ℕ
  merged none total rtt = (total, rtt)
  merged (some (prev_bytes, prev_rtt)) total rtt = (add64 prev_bytes total, min prev_rtt rtt)

  pub note_feedback : AckProgress → Session → Session
  note_feedback p s = record s {
    arq = p.arq;
    pending_cc_ack =
        if ltb 0 p.total_bytes
        then some (merged s.pending_cc_ack p.total_bytes (fallback p.rtt_sample))
        else s.pending_cc_ack;
  }

  -- A frame that does not parse is ignored.
  pub handle_ack_frame : Session → List ℕ → Session
  unfolding ack_ranges note_feedback
  handle_ack_frame s frame = elim (parse_ack_frame frame) [
    | none ↦ s
    | some (largest, delay, ranges) ↦
        note_feedback
          (ack_ranges ranges (record { arq = s.arq; total_bytes = 0; rtt_sample = none })) s
  ]

-- "ACK frames themselves are NOT ack-eliciting (prevents infinite ACK chatter)."
unfoldable pub is_ack_eliciting : PktType → Bool
is_ack_eliciting ack = false
is_ack_eliciting chaff = false
is_ack_eliciting path_probe = false
is_ack_eliciting path_challenge = false
is_ack_eliciting path_response = false
is_ack_eliciting max_data = false
is_ack_eliciting pong = false
is_ack_eliciting initial = true
is_ack_eliciting handshake = true
is_ack_eliciting data_frame = true
is_ack_eliciting fec_repair = true
is_ack_eliciting close = true
is_ack_eliciting datagram = true
is_ack_eliciting key_update = true
is_ack_eliciting ping = true
is_ack_eliciting session_ticket = true
is_ack_eliciting svc_resume = true
is_ack_eliciting svc_resume_ok = true

abbrev pub Handled : Type 0
Handled = Result (List SessionEvent) × Session

abbrev nonce_events : (ℕ → SessionEvent) → List ℕ → List SessionEvent
nonce_events event payload =
    if leb 8 (length payload) then event (from_le (slice payload 0 8)) ∷ [] else []

-- What `receive_packet` does with the payload of a packet of the given type.
unfoldable pub dispatch : ℕ → ℕ → Session → PktType → List ℕ → Option Handled
unfolding handle_ack_frame
dispatch now fuel s data_frame payload = some (handle_data_frame s payload)
dispatch now fuel s ack payload = some (ok [], handle_ack_frame now s payload)
dispatch now fuel s max_data payload = some (
  ok [],
  if leb 8 (length payload)
      then record s { send_window = Flow.update_limit s.send_window (from_be (slice payload 0 8)) }
      else s,
)
dispatch now fuel s ping payload = some (ok [], record s { pending_pong = true })
dispatch now fuel s pong payload = some (ok [], s)
dispatch now fuel s session_ticket payload = some (ok (Frames.session_ticket payload ∷ []), s)
dispatch now fuel s close payload = some (ok (closed ∷ []), s)
dispatch now fuel s datagram payload = elim (Datagram.receive fuel s.datagrams payload) [
  | none ↦ none
  | some q ↦ some (ok (datagram_received ∷ []), record s { datagrams = q })
]
dispatch now fuel s path_challenge payload =
    some (ok (nonce_events path_challenge_received payload), s)
dispatch now fuel s path_response payload =
    some (ok (nonce_events path_response_received payload), s)
dispatch now fuel s initial payload = some (ok [], s)
dispatch now fuel s handshake payload = some (ok [], s)
dispatch now fuel s fec_repair payload = some (ok [], s)
dispatch now fuel s chaff payload = some (ok [], s)
dispatch now fuel s path_probe payload = some (ok [], s)
dispatch now fuel s key_update payload = some (ok [], s)
dispatch now fuel s svc_resume payload = some (ok [], s)
dispatch now fuel s svc_resume_ok payload = some (ok [], s)

abbrev pub noted : ℕ → Session → PktType → ℕ → Session
noted now s t pkt_num = record s {
  ack_ranges = Ack.on_received now s.ack_ranges pkt_num (is_ack_eliciting t);
}

-- "Process an incoming wire packet. Returns events." The buffer that `decode` has changed is left out.
unfoldable pub receive_packet : Primitives → ℕ → ℕ → Session → List ℕ → Option Handled
unfolding dispatch is_ack_eliciting
receive_packet P now fuel s buf =
    let (decoded, d, buf') = decode P s.decoder buf in
    let s' = record s { decoder = d } in
    elim decoded [
      | err e ↦ some (err e, s')
      | ok (t, pkt_num, payload) ↦ dispatch now fuel (noted now s' t pkt_num) t payload
    ]
