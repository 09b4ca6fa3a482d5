-- ===== src/Session/Receiving/Arrives.antt =====
-- src/session/mod.rs on both sides of a path: a chunk that one session sends reaches the stream of the
-- other.
use seam.Prelude.{
  ℕ, ◌+◌, ◌≤◌, ◌<◌, List, [], ◌∷◌, ◌++◌, none, some, Bool, true, false, ◌||◌, if◌then◌else◌, ◌≡◌,
  refl, ap, ◌∙◌, arith, length, take, drop, replicate, length-replicate, length-append,
}
use seam.Prelude.Bytes.{u32_mod, u64_mod}
use seam.Prelude.Splice.{take-front}
use seam.Error.{Result, ok, err}
use seam.Packet.{PktType, data_frame, encode_buf_len}
use seam.Crypto.Replay.{ReplayWindow, check, commit}
use seam.Crypto.Replay.Effect.{IsValid}
use seam.Crypto.Cipher.{Primitives, IsLawful}
use seam.Crypto.Encoder.{PacketEncoder, encode}
use seam.Crypto.Keys.{apply_header_protection}
use seam.Crypto.Keys.RoundTrip.{length-apply_header_protection}
use seam.Crypto.Encoder.Shape.{
  length-make_header, sample_of, encode_lem, counted, packet_of, next_header, next_nonce,
}
use seam.Crypto.Decoder.{PacketDecoder, decode}
use seam.Crypto.Decoder.RoundTrip.{receiver, Opens, decode_lem}
use seam.Session.Arq.{on_sent}
use seam.Session.Arq.Outstanding.{held, held-on_sent}
use seam.Session.State.{Session, is_full}
use seam.Session.Ack.Tracking.{on_received-pending}
use seam.Session.Frames.{
  SessionEvent, new_stream, data_available, stream_frame, refusal, deliver, stream_or_new,
  has_stream, finished_events, note_consumed,
}
use seam.Session.Stream
use seam.Session.Stream.{is_recv_finished}
use seam.Session.Ack.{on_received}
use seam.Prelude.Map.{insert}
use seam.Session.Frames.Chunk.{length-frame, handle-stream_frame}
use seam.Session.Flushing.{Flushed, seal, emit_tracked}
use seam.Session.Receiving.{receive_packet, dispatch, is_ack_eliciting, noted}

module _ (P : Primitives) (law : IsLawful P) (now : ℕ) (t : PktType) (e : PacketEncoder)
    (plain payload : List ℕ) (nb : length e.keys.nonce_base ≡ 12)
    (en : P.encrypt e.keys.cipher_suite e.keys.enc_key (next_nonce e) (next_header e t) plain
      ≡ some payload) where
  abbrev packet : List ℕ
  packet = packet_of P e.keys (next_header e t) payload

  size : length payload ≡ length plain + 16
  size = law.length-encrypt _ _ _ _ _ _ en

  length-packet : length packet ≡ 32 + length plain + 16
  length-packet = omega (
    arith,
    size,
    length-append (apply_header_protection P e.keys.hp_key (next_header e t) (sample_of payload))
        payload,
    length-apply_header_protection P e.keys.hp_key (next_header e t) (sample_of payload),
    length-make_header t e.session_id e.next_pkt_num,
  )

  abbrev written : Result ℕ × PacketEncoder × List ℕ
  written = encode P e t plain (replicate (32 + length plain + 16) 0)

  written_lem : written ≡ (
    ok (encode_buf_len (length plain)),
    counted e,
    packet ++ drop (encode_buf_len (length plain)) (replicate (32 + length plain + 16) 0),
  )
  written_lem =
      encode_lem P e t plain (replicate (32 + length plain + 16) 0) payload law nb
        (omega (arith, length-replicate {A = ℕ} (32 + length plain + 16) 0)) en

  -- What `seal` makes of what `encode` leaves.
  truncated : PacketEncoder × List ℕ → Result (List ℕ) × PacketEncoder
  truncated (e', out) = (ok (take (encode_buf_len (length plain)) out), e')

  sealed : List ℕ → Result (List ℕ) × PacketEncoder
  sealed out = (ok out, counted e)

  pub seal_lem : seal P now t plain e ≡ (ok packet, counted e)
  unfolding seal sealed truncated
  seal_lem =
      rw (ap (λ r. r.0) written_lem, seal)
        (ap (λ r. truncated (r.1, r.2)) written_lem
          ∙ ap sealed
              (take-front packet _ (encode_buf_len (length plain)) (omega (arith, length-packet))))

emit_tracked_lem :
    (P : Primitives) (now : ℕ) (frame bytes : List ℕ) (s : Session) (e : PacketEncoder)
    → seal P now data_frame frame s.encoder ≡ (ok bytes, e)
    → emit_tracked P now frame s ≡ (
      ok (record { is_control = false; bytes = bytes } ∷ []),
      record s { encoder = e; arq = on_sent now s.arq s.encoder.next_pkt_num bytes },
    )
unfolding emit_tracked
emit_tracked_lem P now frame bytes s e h =
    rw (ap (λ r. r.0) h, emit_tracked) (ap emitted (ap (λ r. r.1) h))
  where
    emitted : PacketEncoder → Flushed
    emitted e' = (
      ok (record { is_control = false; bytes = bytes } ∷ []),
      record s { encoder = e'; arq = on_sent now s.arq s.encoder.next_pkt_num bytes },
    )

receive_packet_lem :
    (P : Primitives) (now fuel : ℕ) (s : Session) (buf : List ℕ) (t : PktType) (n : ℕ)
    (plain : List ℕ) (d : PacketDecoder)
    → (decode P s.decoder buf).0 ≡ ok (t, n, plain)
    → (decode P s.decoder buf).1 ≡ d
    → receive_packet P now fuel s buf
      ≡ dispatch now fuel (noted now (record s { decoder = d }) t n) t plain
unfolding receive_packet
receive_packet_lem P now fuel s buf t n plain d h k =
    rw (h, receive_packet)
      (ap (λ d'. dispatch now fuel (noted now (record s { decoder = d' }) t n) t plain) k)

-- The receiving session once it has decoded the packet and noted its number.
abbrev accepted : ℕ → Session → ReplayWindow → PacketEncoder → Session
accepted now peer w e =
    noted now (record peer { decoder = receiver e (commit w e.next_pkt_num).1 }) data_frame
      e.next_pkt_num

-- What the receiver of a chunk has done: it answers `answer` and is left as `final`. Its stream, made
-- where there was none, has received exactly these bytes at this offset, with this end, and no other
-- stream has changed; the error of the stream is the answer, and otherwise the news that the stream
-- has data are in it; and the packet's number `n` is noted, with an acknowledgement owed.
pub record Received (now : ℕ) (peer : Session) (n sid offset : ℕ) (chunk : List ℕ) (is_fin : Bool)
    (answer : Result (List SessionEvent)) (final : Session) : Type 0 where
  pub streams :
      final.streams
      ≡ insert sid (Stream.receive (stream_or_new peer sid) offset chunk is_fin).1 peer.streams
  pub answered : answer ≡ (elim ((Stream.receive (stream_or_new peer sid) offset chunk is_fin).0) [
    | err e ↦ err e
    | ok _ ↦ ok (
        (if has_stream peer sid then [] else new_stream sid ∷ [])
        ++ (data_available sid ∷ [])
        ++ finished_events
            (is_fin
              || is_recv_finished (Stream.receive (stream_or_new peer sid) offset chunk is_fin).1)
            sid)
  ])
  pub noted_number : final.ack_ranges ≡ on_received now peer.ack_ranges n true
  pub pending : final.ack_ranges.ack_pending ≡ true

abbrev Answer : Type 0
Answer = Result (List SessionEvent)

either {ℓ} :
    {A : Type ℓ} (r : Result A) (events : List SessionEvent) (s : Session)
    → (elim r as (λ x. Answer × Session) [ err e ↦ (err e, s) | ok a ↦ (ok events, s) ])
      ≡ (elim r as (λ x. Answer) [ err e ↦ err e | ok a ↦ ok events ], s)
either (err e) events s = refl
either (ok a) events s = refl

deliver-Received :
    (now : ℕ) (peer : Session) (d : PacketDecoder) (n sid offset : ℕ) (chunk : List ℕ)
    (is_fin : Bool)
    → Received now peer n sid offset chunk is_fin
        (deliver (noted now (record peer { decoder = d }) data_frame n) sid offset chunk is_fin).0
        (deliver (noted now (record peer { decoder = d }) data_frame n) sid offset chunk is_fin).1
unfolding deliver note_consumed is_ack_eliciting
deliver-Received now peer d n sid offset chunk is_fin =
    let same = either (Stream.receive (stream_or_new peer sid) offset chunk is_fin).0 _ _ in
    record {
      streams = ap (λ r. r.1.streams) same;
      answered = ap (λ r. r.0) same;
      noted_number = ap (λ r. r.1.ack_ranges) same;
      pending =
          ap (λ r. r.1.ack_ranges.ack_pending) same ∙ on_received-pending now peer.ack_ranges n;
    }

-- A chunk of at most 1386 bytes, sealed by one session where the cipher takes it, becomes one
-- packet, which the tracker holds under its number. A session that decodes with the same keys, to
-- which the number is fresh and which does not refuse the stream, then receives exactly that chunk
-- in that stream at its offset, with its end, changes no other stream, and owes an acknowledgement
-- of the number.
pub emit_tracked-arrives :
    (P : Primitives) (now later fuel : ℕ) (s peer : Session) (w : ReplayWindow) (sid offset : ℕ)
    (chunk payload : List ℕ) (is_fin : Bool)
    → IsLawful P
    → length s.encoder.keys.nonce_base ≡ 12
    → s.encoder.next_pkt_num < u64_mod
    → peer.decoder ≡ receiver s.encoder w
    → IsValid w
    → check w s.encoder.next_pkt_num ≡ ok tt
    → length chunk ≤ 1386
    → sid < u32_mod
    → offset < u64_mod
    → refusal peer sid ≡ none
    → P.encrypt s.encoder.keys.cipher_suite s.encoder.keys.enc_key
        (next_nonce s.encoder)
        (next_header s.encoder data_frame)
        (stream_frame sid offset chunk is_fin)
      ≡ some payload
    → (bytes : List ℕ) × ((emit_tracked P now (stream_frame sid offset chunk is_fin) s).0
        ≡ ok (record { is_control = false; bytes = bytes } ∷ []))
      × (held
            (emit_tracked P now (stream_frame sid offset chunk is_fin) s).1.arq
            s.encoder.next_pkt_num
          ≡ some bytes)
      × (answer : Result (List SessionEvent)) × (final : Session) × (receive_packet P later fuel
            peer bytes
          ≡ some (answer, final))
      × Received later peer s.encoder.next_pkt_num sid offset chunk is_fin answer final
unfolding dispatch is_full is_ack_eliciting
emit_tracked-arrives P now later fuel s peer w sid offset chunk payload is_fin law nb few same v
      fresh small sf of kept en =
    (
      packet_of P s.encoder.keys (next_header s.encoder data_frame) payload,
      rw (emit_tracked_lem P now frame _ s _ made) refl,
      rw (emit_tracked_lem P now frame _ s _ made)
          (held-on_sent now s.encoder.next_pkt_num s.encoder.next_pkt_num _ s.arq ∙ ground arith),
      _,
      _,
      receive_packet_lem P later fuel peer _ data_frame s.encoder.next_pkt_num frame _ opened.0
            opened.1
          ∙ ap some (
              handle-stream_frame sid offset chunk is_fin (accepted later peer w s.encoder)
                (omega arith) sf of kept),
      deliver-Received later peer (receiver s.encoder (commit w s.encoder.next_pkt_num).1)
          s.encoder.next_pkt_num sid offset chunk is_fin,
    )
  where
    frame : List ℕ
    frame = stream_frame sid offset chunk is_fin

    made : seal P now data_frame frame s.encoder ≡ (
      ok (packet_of P s.encoder.keys (next_header s.encoder data_frame) payload),
      counted s.encoder,
    )
    made = seal_lem P law now data_frame s.encoder frame payload nb en

    size' : length frame ≡ 16 + length chunk
    size' = length-frame sid offset chunk is_fin

    opened :
        Opens P law
          (receiver s.encoder w)
          data_frame
          s.encoder.session_id
          s.encoder.next_pkt_num
          frame
          payload
          v
          nb
          en
          fresh
          (decode P peer.decoder
            (packet_of P s.encoder.keys (next_header s.encoder data_frame) payload))
    opened = rw same (
        decode_lem P law (receiver s.encoder w) data_frame s.encoder.session_id
          s.encoder.next_pkt_num frame payload v nb en fresh few (omega (arith, size')))
