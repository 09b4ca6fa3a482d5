-- ===== src/Session/Stream/Tests.antt =====
-- Runs of src/session/stream.rs, two of them its own tests, and instances of the theorems about it.
use seam.Prelude.{◌≤◌, ◌≡◌, refl, List, [], ◌∷◌, none, some, false, inl, inr, arith, length, take}
use seam.Session.Stream.{Stream, Bytes, new, write, poll_send, finish, receive, read}
use seam.Session.Stream.Send
use seam.Session.Stream.Send.{SendCall, writes, polls, finishes, InOrder, run-InOrder}
use seam.Session.Stream.Delivery
use seam.Session.Stream.Delivery.{Event, arrives, reads, run-delivers}
use seam.Session.Stream.Faults.{read-contained, read_short}

abbrev hello : Bytes
hello = 104 ∷ 101 ∷ 108 ∷ 108 ∷ 111 ∷ []

abbrev world : Bytes
world = 32 ∷ 119 ∷ []

abbrev sends : List SendCall
sends = writes hello ∷ polls 5 ∷ writes world ∷ finishes ∷ polls 64 ∷ []

-- Second segment first: nothing is readable until the first is there.
abbrev arrivals : List Event
arrivals =
    arrives 5 world false ∷ reads 64 ∷ arrives 0 hello false ∷ arrives 0 hello false ∷ reads 64 ∷ []

chunks-sends : (Send.run (new 1) sends).chunks ≡ (0, hello) ∷ (5, world) ∷ []
unfolding Send.run new write poll_send finish
chunks-sends = refl

run-InOrder_example : InOrder (new 1) (Send.run (new 1) sends)
unfolding new
run-InOrder_example = run-InOrder (new 1) sends (omega arith) (omega arith) tt

run-delivers_example :
    (out : Bytes) × (s' : Stream) × (Delivery.run (new 2) arrivals ≡ some (out, s'))
    × (out ≡ take s'.recv_offset (Send.run (new 1) sends).written)
    × (s'.recv_offset ≤ length (Send.run (new 1) sends).written)
unfolding Send.run new write poll_send finish
run-delivers_example =
    run-delivers 1 2 sends arrivals tt (omega arith) (inr (inl refl), (inl refl, (inl refl, tt)))

read-contained_example : read (receive (receive (new 1) 0 hello false).1 1 world false).1 64 ≡ none
read-contained_example =
    read-contained 1 1 64 hello world (omega arith) (omega arith) (omega arith) (omega arith)
      (omega arith)

read_short_example :
    (s' : Stream) × (read (receive (new 1) 0 hello false).1 2 ≡ some (104 ∷ 101 ∷ [], s'))
    × (read s' 64 ≡ some ([], s'))
read_short_example = read_short 1 2 64 hello (omega arith) (omega arith) (omega arith)
