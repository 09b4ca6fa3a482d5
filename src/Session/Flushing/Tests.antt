-- ===== src/Session/Flushing/Tests.antt =====
-- Instances of the theorems about `flush` of src/session/mod.rs.
use seam.Prelude.{[], ◌∷◌, ap, arith}
use seam.Crypto.Cipher.Toy.{toy}
use seam.Session.Sample.{client_session}
use seam.Session.Flushing.{flush}
use seam.Session.Flushing.Unsent.{Ends, unsent}
use seam.Session.Flushing.Ends.{Short}
use seam.Session.Flushing.Done.{AllDone, flush-Ends}

client_session-Short : Short 41 (1 ∷ []) client_session
client_session-Short k e =
    (40, ap (unsent client_session.streams) {y = 1} (ground arith), omega arith)

flush-Ends_example : Ends (AllDone (1 ∷ [])) (flush toy 100 41 (1 ∷ []) client_session)
flush-Ends_example =
    flush-Ends toy 100 41 (1 ∷ []) client_session client_session-Short (omega arith)
