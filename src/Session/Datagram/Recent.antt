-- ===== src/Session/Datagram/Recent.antt =====
-- The queues of src/session/datagram.rs hold the newest datagrams, oldest first.
use mathlib.Core.Path.{subst}
use mathlib.Core.List.{append_assoc, append-nil}
use seam.Prelude.{
  ℕ, zero, suc, ◌+◌, ◌-◌, ◌≤◌, ◌<◌, List, [], ◌∷◌, ◌++◌, Option, none, some, ◌≡◌, refl, sym, ap,
  ◌∙◌, arith, true, false, ltb, leb, if◌then◌else◌, Bool-cases, inl, inr, length, drop,
  length-append, length-drop, drop-drop, drop-append_le,
}
use seam.Prelude.Bytes.{u64_mod}
use seam.Prelude.Words.{add64}
use seam.Session.Datagram.{
  DatagramQueue, Datagram, SendResult, queued, too_large, with_limits, make_room, send, receive,
  tail, poll_send,
}

tail-drop : (q : List Datagram) → tail q ≡ drop 1 q
tail-drop [] = refl
tail-drop (d ∷ q) = refl

length-tail : (q : List Datagram) → length (tail q) ≡ length q - 1
length-tail [] = omega arith
length-tail (d ∷ q) = omega arith

add64-small : (n : ℕ) → n + 1 < u64_mod → add64 n 1 ≡ n + 1
add64-small n h = omega arith

abbrev made : List Datagram → ℕ → Option (List Datagram × ℕ)
made q n = some (q, n)

some_pair : {q q' : List Datagram} {n n' : ℕ} → q ≡ q' → n ≡ n' → made q n ≡ made q' n'
some_pair p r = λ i. some (p i, r i)

-- With a positive depth and one round more than there are entries, the loop ends, having dropped just
-- enough of the oldest.
make_room_lem :
    (fuel : ℕ) (q : List Datagram) (depth dropped : ℕ)
    → 0 < depth
    → length q < fuel
    → dropped + length q < u64_mod
    → make_room fuel q depth dropped
      ≡ some (drop (suc (length q) - depth) q, dropped + (suc (length q) - depth))
unfolding make_room
make_room_lem zero q depth dropped p h w = absurd (omega arith)
make_room_lem (suc fuel) q depth dropped p h w = elim (Bool-cases (leb depth (length q))) [
  | inl full ↦ rw full (
      rw (add64-small dropped (ground arith)) (
        make_room_lem fuel (tail q) depth (dropped + 1) p (ground (arith, length-tail q))
          (ground (arith, length-tail q))
        ∙ some_pair (one_more full) (ground (arith, length-tail q))))
  | inr room ↦ rw room (some_pair (none_dropped room) (ground arith))
]
  where
    one_more :
        leb depth (length q) ≡ true
        → drop (suc (length (tail q)) - depth) (tail q) ≡ drop (suc (length q) - depth) q
    one_more full =
        ap (drop (suc (length (tail q)) - depth)) (tail-drop q)
        ∙ drop-drop (suc (length (tail q)) - depth) 1 q
        ∙ ap (λ n. drop n q) (ground (arith, length-tail q))

    none_dropped : leb depth (length q) ≡ false → q ≡ drop (suc (length q) - depth) q
    none_dropped room = ap (λ n. drop n q) {x = 0} (ground arith)

-- What `sends` leaves of a sequence of datagrams offered to a queue of depth `depth`.
abbrev pub latest : ℕ → List Datagram → List Datagram
latest depth ds = drop (length ds - depth) ds

-- The datagrams that are small enough, in order.
abbrev pub accepted : ℕ → List Datagram → List Datagram
accepted max_size [] = []
accepted max_size (d ∷ ds) =
    let rest = accepted max_size ds in if ltb max_size (length d) then rest else d ∷ rest

-- `send` for each datagram, with the fuel of one round more than the queue may hold.
abbrev pub send_all : DatagramQueue → List Datagram → Option DatagramQueue
send_all q [] = some q
send_all q (d ∷ ds) = elim (send (suc q.max_queue_depth) q d) [
  | none ↦ none
  | some (r, q') ↦ send_all q' ds
]

-- The queue holds the newest of the datagrams `sent`, and counts those that it dropped.
HoldsLatest : DatagramQueue → List Datagram → Type 0
HoldsLatest q sent =
    (q.send_queue ≡ latest q.max_queue_depth sent) × (q.dropped ≡ length sent - q.max_queue_depth)

-- One datagram more, of which the queue keeps the newest.
latest-append :
    (depth : ℕ) (sent : List Datagram) (d : Datagram)
    → 0 < depth
    → drop (suc (length (latest depth sent)) - depth) (latest depth sent) ++ (d ∷ [])
      ≡ latest depth (sent ++ (d ∷ []))
latest-append depth sent d p =
    ap (λ l. l ++ (d ∷ []))
      (drop-drop (suc (length (latest depth sent)) - depth) (length sent - depth) sent
        ∙ ap (λ n. drop n sent) {y = suc (length sent) - depth}
            (omega (arith, length-drop (length sent - depth) sent)))
    ∙ sym (
        ap (λ n. drop n (sent ++ (d ∷ []))) (omega (arith, length-append sent (d ∷ [])))
        ∙ drop-append_le (suc (length sent) - depth) sent (d ∷ []) (omega arith))

length-latest : (depth : ℕ) (sent : List Datagram) → length (latest depth sent) ≤ depth
length-latest depth sent = omega (arith, length-drop (length sent - depth) sent)

-- One `send` of a datagram that is small enough, to a queue that holds the latest of `sent`.
send_lem :
    (q : DatagramQueue) (sent : List Datagram) (d : Datagram)
    → 0 < q.max_queue_depth
    → q.max_queue_depth + (length sent + 1) < u64_mod
    → HoldsLatest q sent
    → ltb q.max_size (length d) ≡ false
    → (q' : DatagramQueue) × (send (suc q.max_queue_depth) q d ≡ some (queued, q'))
      × (q'.max_size ≡ q.max_size)
      × (q'.max_queue_depth ≡ q.max_queue_depth)
      × HoldsLatest q' (sent ++ (d ∷ []))
unfolding send HoldsLatest
send_lem q sent d p w (hq, hn) small = (
  record q {
    send_queue = drop (suc (length q.send_queue) - q.max_queue_depth) q.send_queue ++ (d ∷ []);
    dropped = q.dropped + (suc (length q.send_queue) - q.max_queue_depth);
  },
  rw small (rw made_room refl),
  refl,
  refl,
  (
    (ap (λ l. drop (suc (length l) - q.max_queue_depth) l ++ (d ∷ [])) hq
        ∙ latest-append q.max_queue_depth sent d p),
    counted,
  ),
)
  where
    fits : length q.send_queue ≤ q.max_queue_depth
    fits = rw hq (length-latest q.max_queue_depth sent)

    all_length : length q.send_queue ≡ length sent - (length sent - q.max_queue_depth)
    all_length = rw hq (length-drop (length sent - q.max_queue_depth) sent)

    made_room :
        make_room (suc q.max_queue_depth) q.send_queue q.max_queue_depth q.dropped
        ≡ made
            (drop (suc (length q.send_queue) - q.max_queue_depth) q.send_queue)
            (q.dropped + (suc (length q.send_queue) - q.max_queue_depth))
    made_room =
        make_room_lem (suc q.max_queue_depth) q.send_queue q.max_queue_depth q.dropped p
          (omega (arith, fits)) (omega (arith, fits, hn))

    counted :
        q.dropped + (suc (length q.send_queue) - q.max_queue_depth)
        ≡ length (sent ++ (d ∷ [])) - q.max_queue_depth
    counted = omega (arith, length-append sent (d ∷ []), all_length, hn)

send_all-step :
    (q q' : DatagramQueue) (d : Datagram) (ds : List Datagram) (r : SendResult)
    → send (suc q.max_queue_depth) q d ≡ some (r, q')
    → send_all q (d ∷ ds) ≡ send_all q' ds
send_all-step q q' d ds r h = rw (h, send_all) refl

send-too_large :
    (q : DatagramQueue) (d : Datagram) (fuel : ℕ)
    → ltb q.max_size (length d) ≡ true
    → send fuel q d ≡ some (too_large (length d), q)
unfolding send
send-too_large q d fuel h = rw h refl

accepted-large :
    (m : ℕ) (d : Datagram) (ds : List Datagram)
    → ltb m (length d) ≡ true
    → accepted m (d ∷ ds) ≡ accepted m ds
accepted-large m d ds h = rw h refl

accepted-small :
    (m : ℕ) (d : Datagram) (ds : List Datagram)
    → ltb m (length d) ≡ false
    → accepted m (d ∷ ds) ≡ d ∷ accepted m ds
accepted-small m d ds h = rw h refl

send_all-latest :
    (q : DatagramQueue) (sent ds : List Datagram)
    → 0 < q.max_queue_depth
    → q.max_queue_depth + (length sent + length ds) < u64_mod
    → HoldsLatest q sent
    → (q' : DatagramQueue) × (send_all q ds ≡ some q')
      × (q'.max_queue_depth ≡ q.max_queue_depth)
      × HoldsLatest q' (sent ++ accepted q.max_size ds)
send_all-latest q sent [] p w h = (q, refl, refl, rw (append-nil sent) h)
send_all-latest q sent (d ∷ ds) p w h = elim (Bool-cases (ltb q.max_size (length d))) [
  | inl large ↦ rw (accepted-large q.max_size d ds large) (
      rw
        (send_all-step q q d ds (too_large (length d))
          (send-too_large q d (suc q.max_queue_depth) large))
        (send_all-latest q sent ds p (omega arith) h))
  | inr small ↦
      let (q', e, es, ed, hl) = send_lem q sent d p (omega arith) h small in
      let (q'', e', ed', hl') =
        send_all-latest q' (sent ++ (d ∷ [])) ds (rw ed p)
          (rw ed (omega (arith, length-append sent (d ∷ [])))) hl in
      (
        q'',
        send_all-step q q' d ds queued e ∙ e',
        ed' ∙ ed,
        rw (accepted-small q.max_size d ds small) (
            subst (HoldsLatest q'') (append_assoc sent (d ∷ []) (accepted q.max_size ds))
              (subst (λ m. HoldsLatest q'' (sent ++ (d ∷ []) ++ accepted m ds)) es hl')),
      )
]

-- Whatever datagrams are offered to a fresh queue of positive depth, their number and the depth fitting
-- 64 bits, `send` always ends, and of those
-- that are no larger than the limit the queue then holds exactly the newest, in order and as many
-- as the depth allows, and counts the others as dropped.
pub send_all-HoldsLatest :
    (max_size depth : ℕ) (ds : List Datagram)
    → 0 < depth
    → depth + length ds < u64_mod
    → (q : DatagramQueue) × (send_all (with_limits max_size depth) ds ≡ some q)
      × (q.send_queue ≡ latest depth (accepted max_size ds))
      × (q.dropped ≡ length (accepted max_size ds) - depth)
      × (length q.send_queue ≤ depth)
unfolding with_limits HoldsLatest
send_all-HoldsLatest max_size depth ds p w =
    let (q, e, ed, (hq, hn)) =
      send_all-latest (with_limits max_size depth) [] ds p (omega arith)
        (ap (λ n. drop {A = Datagram} n []) {x = 0} (omega arith), omega arith) in
    (
      q,
      e,
      held depth q ed hq,
      omega (arith, ed, hn),
      rw (held depth q ed hq) (length-latest depth (accepted max_size ds)),
    )
  where
    held :
        (n : ℕ) (q : DatagramQueue)
        → q.max_queue_depth ≡ n
        → q.send_queue ≡ latest q.max_queue_depth (accepted max_size ds)
        → q.send_queue ≡ latest n (accepted max_size ds)
    held n q e h = h ∙ ap (λ k. latest k (accepted max_size ds)) e

-- With a queue depth of 0 the loop that makes room never ends, whatever the fuel.
make_room_zero : (fuel : ℕ) (q : List Datagram) (dropped : ℕ) → make_room fuel q 0 dropped ≡ none
unfolding make_room
make_room_zero zero q dropped = refl
make_room_zero (suc fuel) q dropped =
    rw (always (length q)) (make_room_zero fuel (tail q) (add64 dropped 1))
  where
    always : (n : ℕ) → leb 0 n ≡ true
    always n = ground arith

-- A queue of depth 0 takes no datagram that fits the size limit: neither `send` nor `receive` ever
-- ends, whatever the fuel.
pub with_limits_zero :
    (max_size fuel : ℕ) (d : Datagram)
    → length d ≤ max_size
    → (send fuel (with_limits max_size 0) d ≡ none)
      × (receive fuel (with_limits max_size 0) d ≡ none)
unfolding with_limits send receive
with_limits_zero max_size fuel d h = (
  rw (not_large max_size d h) (rw (make_room_zero fuel [] 0) refl),
  rw (not_large max_size d h) (rw (make_room_zero fuel [] 0) refl),
)
  where
    not_large : (m : ℕ) (d : Datagram) → length d ≤ m → ltb m (length d) ≡ false
    not_large m d h = ground arith

-- Polling an empty queue, and one that holds a datagram.
pub poll_send-none :
    (q : DatagramQueue)
    → q.send_queue ≡ []
    → ((poll_send q).0 ≡ none) × ((poll_send q).1.send_queue ≡ [])
unfolding poll_send
poll_send-none q h = rw (h, poll_send) (refl, refl)

pub poll_send-some :
    (q : DatagramQueue) (d : Datagram) (ds : List Datagram)
    → q.send_queue ≡ d ∷ ds
    → ((poll_send q).0 ≡ some d) × ((poll_send q).1.send_queue ≡ ds)
unfolding poll_send
poll_send-some q d ds h = rw (h, poll_send) (refl, refl)
