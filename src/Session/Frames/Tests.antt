-- ===== src/Session/Frames/Tests.antt =====
-- Runs of the frames of src/session/mod.rs.
use seam.Prelude.{[], ◌∷◌, ◌≡◌, refl}
use seam.Prelude.Bytes.{from_le}
use seam.Session.Sample.{client_session}
use seam.Session.State.{local_parity}
use seam.Session.Frames.{handle_data_frame, wrong_parity}
use seam.Error.{ok, err}

-- A header that is cut short is ignored, and the peer may not open a stream of the client's parity.
handle-cut : handle_data_frame client_session (1 ∷ 0 ∷ 2 ∷ []) ≡ (ok [], client_session)
unfolding handle_data_frame
handle-cut = refl

handle-own_parity :
    handle_data_frame client_session
      (1 ∷ 0 ∷ 0 ∷ 0 ∷ 9 ∷ 0 ∷ 0 ∷ 0 ∷ 0 ∷ 0 ∷ 0 ∷ 0 ∷ 0 ∷ 0 ∷ 0 ∷ 0 ∷ [])
    ≡ (err wrong_parity, client_session)
unfolding handle_data_frame local_parity from_le
handle-own_parity = refl
