-- ===== src/Session/Arq/Timeout.antt =====
-- When src/session/arq.rs sends a packet again, and how long it waits.
use seam.Prelude.{
  ℕ, suc, ◌-◌, ◌≤◌, ◌<◌, List, [], ◌∷◌, Option, none, some, Bool, true, false, ◌≡◌, refl, arith,
  leb, ◌==◌, if◌then◌else◌, Option-cases, inl, inr, length,
}
use seam.Prelude.Map.{Map, lookup, remove, Above, lookup_below}
use seam.Session.Arq.{
  InFlight, ArqTracker, new, millis, on_sent, on_ack, clamped_rto, update_rtt, expire,
  drain_expired,
}
use seam.Session.Arq.Outstanding.{Event, sent, acked, drained, step, after, on_ack-none}

abbrev pub InRange : ArqTracker → Type 0
InRange t = (millis 200 ≤ t.rto) × (t.rto ≤ millis 60_000)

update_rtt-InRange : (t : ArqTracker) (rtt : ℕ) → InRange (update_rtt t rtt)
unfolding update_rtt clamped_rto
update_rtt-InRange t rtt = (omega arith, omega arith)

on_ack-InRange : (now n : ℕ) (t : ArqTracker) → InRange t → InRange (on_ack now t n).1
unfolding on_ack
on_ack-InRange now n t r = elim (Option-cases (lookup n t.in_flight)) [
  | inl missing ↦ rw (on_ack-none now n t missing) r
  | inr (pkt, found) ↦ rw (found, on_ack) (either (pkt.retransmits == 0) pkt)
]
  where
    either :
        (b : Bool) (pkt : InFlight)
        → InRange
            (if◌then◌else◌ {A = Option (ℕ × ℕ) × ArqTracker} b
              (
                some (now - pkt.sent_at, length pkt.bytes),
                update_rtt (record t { in_flight = remove n t.in_flight }) (now - pkt.sent_at),
              )
              (some (0, length pkt.bytes), record t { in_flight = remove n t.in_flight })).1
    either true pkt =
        update_rtt-InRange (record t { in_flight = remove n t.in_flight }) (now - pkt.sent_at)
    either false pkt = r

drain_expired-InRange : (now : ℕ) (t : ArqTracker) → InRange t → InRange (drain_expired now t).1
unfolding drain_expired
drain_expired-InRange now t r = ground arith

-- Through any sends, acknowledgements and timeouts the timeout stays between 200 ms and 60 s.
pub after-InRange : (events : List Event) → InRange (after events)
unfolding after step new on_sent
after-InRange [] = (omega arith, omega arith)
after-InRange (sent now n contents ∷ earlier) = after-InRange earlier
after-InRange (acked now n ∷ earlier) = on_ack-InRange now n (after earlier) (after-InRange earlier)
after-InRange (drained now ∷ earlier) =
    drain_expired-InRange now (after earlier) (after-InRange earlier)

-- The bytes of a packet that has waited for `rto`.
abbrev pub due : ℕ → ℕ → Option InFlight → Option (List ℕ)
due now rto none = none
due now rto (some pkt) = if leb rto (now - pkt.sent_at) then some pkt.bytes else none

expire-due :
    (now rto n lo : ℕ) (m : Map InFlight)
    → Above lo m
    → lookup n (expire now rto m).0 ≡ due now rto (lookup n m)
unfolding expire
expire-due now rto n lo [] a = refl
expire-due now rto n lo ((k, pkt) ∷ m) (h, a) =
    ground (arith, expire-due now rto n (suc k) m a, lookup_below (suc k) n m a)

expire-again :
    (now rto rto' : ℕ) (m : Map InFlight)
    → 0 < rto
    → rto ≤ rto'
    → (expire now rto' (expire now rto m).1).0 ≡ []
unfolding expire
expire-again now rto rto' [] p h = refl
expire-again now rto rto' ((k, pkt) ∷ m) p h = ground (arith, expire-again now rto rto' m p h)

-- With the packet numbers in ascending order, `drain_expired` returns exactly the packets that have
-- waited for the timeout, with their bytes.
pub drain_expired-due :
    (now n : ℕ) (t : ArqTracker)
    → Above 0 t.in_flight
    → lookup n (drain_expired now t).0 ≡ due now t.rto (lookup n t.in_flight)
unfolding drain_expired
drain_expired-due now n t a = expire-due now t.rto n 0 t.in_flight a

-- Draining restarts the clocks: with a timeout in range, a second call at the same time returns
-- nothing.
pub drain_expired_twice :
    (now : ℕ) (t : ArqTracker) → InRange t → (drain_expired now (drain_expired now t).1).0 ≡ []
unfolding drain_expired
drain_expired_twice now t (a, b) = expire-again now t.rto _ t.in_flight (omega arith) (ground arith)
