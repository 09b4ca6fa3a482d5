-- ===== src/Session/Datagram.antt =====
-- src/session/datagram.rs: two bounded queues of unreliable datagrams that drop their oldest entry
-- when they are full. The loop that makes room takes fuel; `none` means that it has not ended yet.
pub mod Recent
mod Tests
use seam.Prelude.{
  ℕ, zero, suc, ◌+◌, List, [], ◌∷◌, ◌++◌, Option, none, some, ltb, leb, if◌then◌else◌, length,
}
use seam.Prelude.Words.{add64}

abbrev pub Datagram : Type 0
Datagram = List ℕ

abbrev pub max_datagram_size : ℕ
max_datagram_size = 1200

abbrev pub default_queue_depth : ℕ
default_queue_depth = 64

pub record DatagramQueue : Type 0 where
  pub send_queue : List Datagram
  pub recv_queue : List Datagram
  pub max_size : ℕ
  pub max_queue_depth : ℕ
  pub dropped : ℕ

pub with_limits : ℕ → ℕ → DatagramQueue
with_limits max_size max_queue_depth = record {
  send_queue = [];
  recv_queue = [];
  max_size = max_size;
  max_queue_depth = max_queue_depth;
  dropped = 0;
}

pub new : DatagramQueue
unfolding with_limits
new = with_limits max_datagram_size default_queue_depth

-- `pop_front` on an empty queue leaves it empty.
abbrev tail : List Datagram → List Datagram
tail [] = []
tail (d ∷ q) = q

-- `while queue.len() >= max_queue_depth { queue.pop_front(); dropped += 1; }`
pub make_room : ℕ → List Datagram → ℕ → ℕ → Option (List Datagram × ℕ)
make_room zero q depth dropped = none
make_room (suc fuel) q depth dropped =
    let next = make_room fuel (tail q) depth (add64 dropped 1) in
    if leb depth (length q) then next else some (q, dropped)

-- `Ok(())` or `Err(size)`.
pub data SendResult : Type 0 where
  queued : SendResult
  too_large : ℕ → SendResult

pub send : ℕ → DatagramQueue → Datagram → Option (SendResult × DatagramQueue)
unfolding make_room
send fuel q d =
    if ltb q.max_size (length d)
    then some (too_large (length d), q)
    else elim (make_room fuel q.send_queue q.max_queue_depth q.dropped) [
      | none ↦ none
      | some (queue, dropped) ↦
          some (queued, record q { send_queue = queue ++ (d ∷ []); dropped = dropped })
    ]

abbrev first : List Datagram → Option Datagram
first [] = none
first (d ∷ q) = some d

pub poll_send : DatagramQueue → Option Datagram × DatagramQueue
poll_send q = (first q.send_queue, record q { send_queue = tail q.send_queue })

-- An oversized datagram is ignored.
pub receive : ℕ → DatagramQueue → Datagram → Option DatagramQueue
unfolding make_room
receive fuel q d =
    if ltb q.max_size (length d)
    then some q
    else elim (make_room fuel q.recv_queue q.max_queue_depth q.dropped) [
      | none ↦ none
      | some (queue, dropped) ↦
          some (record q { recv_queue = queue ++ (d ∷ []); dropped = dropped })
    ]

pub recv : DatagramQueue → Option Datagram × DatagramQueue
recv q = (first q.recv_queue, record q { recv_queue = tail q.recv_queue })

pub send_pending : DatagramQueue → ℕ
send_pending q = length q.send_queue

pub recv_pending : DatagramQueue → ℕ
recv_pending q = length q.recv_queue
