-- ===== src/Session/Datagram/Tests.antt =====
-- Runs of src/session/datagram.rs, one of them its own test, and instances of the theorems about it.
use seam.Prelude.{◌≤◌, ◌-◌, ◌≡◌, refl, List, [], ◌∷◌, none, some, arith, length}
use seam.Session.Datagram.{DatagramQueue, Datagram, with_limits, send, receive, make_room}
use seam.Session.Datagram.Recent.{
  send_all, latest, accepted, send_all-HoldsLatest, with_limits_zero,
}

abbrev three : List Datagram
three = (1 ∷ []) ∷ (2 ∷ 2 ∷ []) ∷ (3 ∷ []) ∷ []

-- The source's test `queue_drops_oldest`.
drops_oldest :
    (q : DatagramQueue) × (send_all (with_limits 100 2) three ≡ some q)
    × (q.send_queue ≡ (2 ∷ 2 ∷ []) ∷ (3 ∷ []) ∷ [])
    × (q.dropped ≡ 1)
unfolding with_limits send make_room
drops_oldest = (_, refl, refl, refl)

send_all-HoldsLatest_example :
    (q : DatagramQueue) × (send_all (with_limits 1 1) three ≡ some q)
    × (q.send_queue ≡ latest 1 (accepted 1 three))
    × (q.dropped ≡ length (accepted 1 three) - 1)
    × (length q.send_queue ≤ 1)
send_all-HoldsLatest_example = send_all-HoldsLatest 1 1 three (omega arith) (omega arith)

with_limits_zero_example :
    (send 5 (with_limits 100 0) (7 ∷ []) ≡ none) × (receive 5 (with_limits 100 0) (7 ∷ []) ≡ none)
with_limits_zero_example = with_limits_zero 100 5 (7 ∷ []) (omega arith)
