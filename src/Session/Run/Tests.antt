-- ===== src/Session/Run/Tests.antt =====
-- Instances of the theorems about the streams of src/session/mod.rs.
use seam.Prelude.{◌≤◌, ◌%◌, [], ◌∷◌, none, true, ◌≡◌, refl, arith, length}
use seam.Prelude.Map.{lookup}
use seam.Session.Sample.{sender, decoder}
use seam.Session.State.{
  Session, client, default_limits, with_limits, local_parity, try_open_stream_with_priority, send,
}
use seam.Session.Frames.{stream_frame, handle_data_frame}
use seam.Session.Run.{Reach, start, later, opened, sent, received}
use seam.Session.Run.Limits.{Reach-limits}

-- A client opens a stream, writes to it, and hears of a stream of the server.
abbrev first : Session
first = with_limits 7 client sender decoder default_limits

abbrev busy : Session
busy =
    (handle_data_frame (send (try_open_stream_with_priority first 2).1 1 (4 ∷ 5 ∷ [])).1
      (stream_frame 2 0 (6 ∷ []) true)).1

Reach-busy : Reach first busy
Reach-busy =
    later (later (later start (opened 2 refl)) (sent 1 (4 ∷ 5 ∷ []) refl))
      (received (stream_frame 2 0 (6 ∷ []) true) refl)

Reach-limits_example :
    (length busy.streams ≤ 1024)
    × (busy.next_stream_id % 2 ≡ local_parity client)
    × (lookup busy.next_stream_id busy.streams ≡ none)
Reach-limits_example =
    Reach-limits 7 client sender decoder default_limits busy (omega arith) Reach-busy
