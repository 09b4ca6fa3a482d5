-- ===== src/Session/Receiving/Tests.antt =====
-- Instances of the theorems about `receive_packet` of src/session/mod.rs.
use seam.Prelude.{
  ℕ, ◌≤◌, ◌-◌, List, [], ◌∷◌, ◌++◌, none, some, true, false, ◌&&◌, ◌≡◌, refl, arith, leb,
  if◌then◌else◌,
}
use seam.Error.{Result, ok}
use seam.Crypto.Replay
use seam.Crypto.Replay.Effect.{new-IsValid, check-new}
use seam.Crypto.Cipher.Toy.{toy, toy_tag, toy-IsLawful}
use seam.Session.Ack.{build_frame}
use seam.Session.Ack.Numbers.{mem}
use seam.Session.Ack.Tracking
use seam.Session.Ack.Tracking.{Arrival, numbers}
use seam.Session.Arq.Outstanding.{held}
use seam.Session.Sample.{client_session, server_session}
use seam.Session.State.{Session, local_parity, is_full}
use seam.Session.Frames.{SessionEvent, stream_frame}
use seam.Session.Flushing.{emit_tracked}
use seam.Session.Receiving.{receive_packet, handle_ack_frame}
use seam.Session.Receiving.Releases.{handle_ack_frame-releases}
use seam.Session.Receiving.Arrives.{Received, emit_tracked-arrives}

-- Packets 5 and 6 have arrived at the server; packet 5 is in flight at the client.
abbrev earlier : List Arrival
earlier = (20, 5, true) ∷ []

abbrev frame : List ℕ
frame = (build_frame 60 (Tracking.after ((30, 6, true) ∷ earlier))).0

handle_ack_frame-releases_example :
    (largest : ℕ) × ((n : ℕ)
      → held (handle_ack_frame 70 client_session frame).arq n ≡ (
          if mem n (numbers ((30, 6, true) ∷ earlier)) && leb (largest - 8192) n
          then none
          else held client_session.arq n))
    × ((n : ℕ) → mem n (numbers ((30, 6, true) ∷ earlier)) ≡ true → n ≤ largest)
    × (mem largest (numbers ((30, 6, true) ∷ earlier)) ≡ true)
handle_ack_frame-releases_example =
    handle_ack_frame-releases 60 70 client_session (30, 6, true) earlier
      (omega arith, (omega arith, tt))

emit_tracked-arrives_example :
    (bytes : List ℕ) × ((emit_tracked toy 50 (stream_frame 1 0 (7 ∷ 8 ∷ []) true) client_session).0
      ≡ ok (record { is_control = false; bytes = bytes } ∷ []))
    × (held (emit_tracked toy 50 (stream_frame 1 0 (7 ∷ 8 ∷ []) true) client_session).1.arq 0
        ≡ some bytes)
    × (answer : Result (List SessionEvent)) × (final : Session) × (receive_packet toy 60 1
          server_session bytes
        ≡ some (answer, final))
    × Received 60 server_session 0 1 0 (7 ∷ 8 ∷ []) true answer final
unfolding is_full local_parity
emit_tracked-arrives_example =
    emit_tracked-arrives toy 50 60 1 client_session server_session Replay.new 1 0 (7 ∷ 8 ∷ [])
      (stream_frame 1 0 (7 ∷ 8 ∷ []) true ++ toy_tag) true toy-IsLawful refl (omega arith) refl
      new-IsValid check-new (omega arith) (omega arith) (omega arith) refl refl
