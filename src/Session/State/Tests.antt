-- ===== src/Session/State/Tests.antt =====
-- Instances of the theorems about sending in src/session/mod.rs.
use seam.Prelude.{ℕ, [], ◌∷◌, none, some, true, ◌≡◌, arith}
use seam.Prelude.Map.{lookup, insert}
use seam.Error.{err, unknown_stream, stream_finished}
use seam.Session.Flow.{available}
use seam.Session.Stream.{Stream}
use seam.Session.State.{send}
use seam.Session.State.Credits.{charged_window, send_charges}
use seam.Session.Sample.{client_session}

-- Stream 2 is unknown to the client, whose credit is taken all the same.
send_charges_example :
    ((send client_session 2 (1 ∷ 2 ∷ [])).1.send_window
      ≡ record client_session.send_window { consumed = 2 })
    × (lookup 2 client_session.streams ≡ none
        → send client_session 2 (1 ∷ 2 ∷ []) ≡ (
          err (unknown_stream 2),
          record client_session { send_window = charged_window client_session 2 (1 ∷ 2 ∷ []) },
        ))
    × ((stream : Stream)
        → lookup 2 client_session.streams ≡ some stream
        → stream.fin_sent ≡ true
        → (send client_session 2 (1 ∷ 2 ∷ []) ≡ (
          err (stream_finished stream.id),
          record client_session {
            send_window = charged_window client_session 2 (1 ∷ 2 ∷ []);
            streams = insert 2 stream client_session.streams;
          },
        ))
          × ((n : ℕ)
              → lookup n (send client_session 2 (1 ∷ 2 ∷ [])).1.streams
                ≡ lookup n client_session.streams))
unfolding available
send_charges_example =
    send_charges client_session 2 (1 ∷ 2 ∷ []) (record { within = omega arith; word = omega arith })
      (omega arith)
