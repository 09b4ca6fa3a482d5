-- ===== src/Session/Run.antt =====
-- src/session/mod.rs: the calls that change which streams a session has, as steps.
pub mod Bounded
pub mod Limits
mod Tests
use seam.Prelude.{ℕ, List, Option, some, ◌≡◌}
use seam.Error.{Result}
use seam.Session.State.{Session, try_open_stream_with_priority, send, finish_stream, read}
use seam.Session.Frames.{handle_data_frame}

pub data Step (s s' : Session) : Type 0 where
  opened : (priority : ℕ) → (try_open_stream_with_priority s priority).1 ≡ s' → Step s s'
  sent : (stream_id : ℕ) (contents : List ℕ) → (send s stream_id contents).1 ≡ s' → Step s s'
  finished : (stream_id : ℕ) → finish_stream s stream_id ≡ s' → Step s s'
  received : (frame : List ℕ) → (handle_data_frame s frame).1 ≡ s' → Step s s'
  was_read :
      (stream_id max_bytes : ℕ) (r : Result (List ℕ))
      → read s stream_id max_bytes ≡ some (r, s')
      → Step s s'

pub data Reach (first : Session) : Session → Type 0 where
  start : Reach first first
  later : {s s' : Session} → Reach first s → Step s s' → Reach first s'
