-- ===== src/Session/Arq/Outstanding.antt =====
-- Which packets src/session/arq.rs holds: those sent and not acknowledged since, with their bytes.
use seam.Prelude.{
  ℕ, ◌-◌, List, [], ◌∷◌, Option, none, some, Bool, true, false, ◌≡◌, refl, ap, ◌∙◌, arith, ◌==◌,
  if◌then◌else◌, Option-cases, inl, inr, length,
}
use seam.Prelude.Map.{Map, lookup, remove, lookup-insert, lookup-remove}
use seam.Session.Arq.{InFlight, ArqTracker, new, on_sent, on_ack, update_rtt, expire, drain_expired}

abbrev bytes_of : Option InFlight → Option (List ℕ)
bytes_of none = none
bytes_of (some pkt) = some pkt.bytes

-- The bytes of packet `n`, while it is in flight.
abbrev pub held : ArqTracker → ℕ → Option (List ℕ)
held t n = bytes_of (lookup n t.in_flight)

pub data Event : Type 0 where
  sent : (now pkt_num : ℕ) → (contents : List ℕ) → Event
  acked : (now pkt_num : ℕ) → Event
  drained : (now : ℕ) → Event

unfoldable pub step : ArqTracker → Event → ArqTracker
step t (sent now n contents) = on_sent now t n contents
step t (acked now n) = (on_ack now t n).1
step t (drained now) = (drain_expired now t).1

-- Events are listed from the last to the first.
unfoldable pub after : List Event → ArqTracker
unfolding step
after [] = new
after (e ∷ earlier) = step (after earlier) e

-- What is outstanding by the events alone.
abbrev pub outstanding : List Event → ℕ → Option (List ℕ)
outstanding [] n = none
outstanding (sent now m contents ∷ earlier) n =
    let before = outstanding earlier n in if m == n then some contents else before
outstanding (acked now m ∷ earlier) n =
    let before = outstanding earlier n in if m == n then none else before
outstanding (drained now ∷ earlier) n = outstanding earlier n

pub held-on_sent :
    (now m n : ℕ) (contents : List ℕ) (t : ArqTracker)
    → held (on_sent now t m contents) n ≡ (if m == n then some contents else held t n)
unfolding on_sent
held-on_sent now m n contents t = ap bytes_of (lookup-insert m n _ t.in_flight) ∙ ground arith

pub on_ack-none :
    (now m : ℕ) (t : ArqTracker) → lookup m t.in_flight ≡ none → on_ack now t m ≡ (none, t)
unfolding on_ack
on_ack-none now m t h = rw (h, on_ack) refl

on_ack-some :
    (now m : ℕ) (t : ArqTracker) (pkt : InFlight)
    → lookup m t.in_flight ≡ some pkt
    → (on_ack now t m).1.in_flight ≡ remove m t.in_flight
unfolding on_ack update_rtt
on_ack-some now m t pkt h = rw (h, on_ack) (either (pkt.retransmits == 0))
  where
    t' : ArqTracker
    t' = record t { in_flight = remove m t.in_flight }

    either :
        (b : Bool)
        → (if◌then◌else◌ {A = Option (ℕ × ℕ) × ArqTracker} b
            (some (now - pkt.sent_at, length pkt.bytes), update_rtt t' (now - pkt.sent_at))
            (some (0, length pkt.bytes), t')).1.in_flight
          ≡ remove m t.in_flight
    either true = refl
    either false = refl

pub held-on_ack :
    (now m n : ℕ) (t : ArqTracker) → held (on_ack now t m).1 n ≡ (if m == n then none else held t n)
held-on_ack now m n t = elim (Option-cases (lookup m t.in_flight)) [
  | inl missing ↦ rw (on_ack-none now m t missing) (ground (arith, same))
  | inr (pkt, found) ↦
      ap (λ f. bytes_of (lookup n f)) (on_ack-some now m t pkt found)
      ∙ ap bytes_of (lookup-remove m n t.in_flight)
      ∙ ground arith
]
  where
    same : m ≡ n → lookup m t.in_flight ≡ lookup n t.in_flight
    same e = ap (λ k. lookup k t.in_flight) e

lookup-expire :
    (now rto n : ℕ) (m : Map InFlight)
    → bytes_of (lookup n (expire now rto m).1) ≡ bytes_of (lookup n m)
unfolding expire
lookup-expire now rto n [] = refl
lookup-expire now rto n ((k, pkt) ∷ m) = ground (arith, lookup-expire now rto n m)

held-drain_expired : (now n : ℕ) (t : ArqTracker) → held (drain_expired now t).1 n ≡ held t n
unfolding drain_expired
held-drain_expired now n t = lookup-expire now t.rto n t.in_flight

-- After any sends, acknowledgements and timeouts, packet `n` is in flight, with the bytes last sent
-- under that number, exactly if it has not been acknowledged since.
pub after-outstanding : (events : List Event) (n : ℕ) → held (after events) n ≡ outstanding events n
unfolding after step new
after-outstanding [] n = refl
after-outstanding (sent now m contents ∷ earlier) n =
    held-on_sent now m n contents (after earlier)
    ∙ ap (λ o. if m == n then some contents else o) (after-outstanding earlier n)
after-outstanding (acked now m ∷ earlier) n =
    held-on_ack now m n (after earlier)
    ∙ ap (λ o. if m == n then none else o) (after-outstanding earlier n)
after-outstanding (drained now ∷ earlier) n =
    held-drain_expired now n (after earlier) ∙ after-outstanding earlier n
