-- ===== src/Transport/Probe/Silence.antt =====
-- What src/transport/probe.rs makes of a path that has gone silent.
use seam.Prelude.{ℕ, ◌≤◌, List, [], ◌∷◌, true, false, ◌≡◌, refl, arith}
use seam.Prelude.Map.{Map, insert}
use seam.Transport.Probe.{
  PathProber, PendingProbe, new, next_size, build_probe, expire_timeouts, keepalive_loss,
  still_pending, should_migrate,
}

-- Every probe in the list is one for the MTU.
abbrev Large : Map PendingProbe → Type 0
Large [] = Unit
Large ((id, probe) ∷ m) = (17 ≤ probe.probe_size) × Large m

Large-insert :
    (id : ℕ) (probe : PendingProbe) (m : Map PendingProbe)
    → 17 ≤ probe.probe_size
    → Large m
    → Large (insert id probe m)
Large-insert id probe [] h l = (h, tt)
Large-insert id probe ((j, q) ∷ m) h l = ground (arith, Large-insert id probe m h l.1)

still_pending-Large : (now : ℕ) (m : Map PendingProbe) → Large m → Large (still_pending now m)
still_pending-Large now [] l = tt
still_pending-Large now ((id, probe) ∷ m) l = ground (arith, still_pending-Large now m l.1)

keepalive_loss-Large : (now : ℕ) (m : Map PendingProbe) → Large m → keepalive_loss now m ≡ false
keepalive_loss-Large now [] l = refl
keepalive_loss-Large now ((id, probe) ∷ m) l = ground (arith, keepalive_loss-Large now m l.1)

-- Probes that are sent, with their times, and searches for those that have timed out.
pub data Event : Type 0 where
  sends : (now now_us : ℕ) → Event
  expires : (now : ℕ) → Event

unfoldable pub step : PathProber → Event → PathProber
step p (sends now now_us) = (build_probe now now_us p).1
step p (expires now) = (expire_timeouts now p).1

-- Events are listed from the last to the first.
unfoldable pub after : ℕ → List Event → PathProber
unfolding step
after start [] = new start
after start (e ∷ earlier) = step (after start earlier) e

record IsSearching (p : PathProber) : Type 0 where
  active : p.probing_mtu ≡ true
  low : 1280 ≤ p.mtu_lo
  high : 1280 ≤ p.mtu_hi
  large : Large p.pending
  silent : p.consecutive_timeouts ≡ 0

step-IsSearching : (p : PathProber) (e : Event) → IsSearching p → IsSearching (step p e)
unfolding step build_probe expire_timeouts next_size
step-IsSearching p (sends now now_us) s = record {
  active = s.active;
  low = s.low;
  high = s.high;
  large = Large-insert p.next_id _ p.pending (rw s.active (omega (arith, s.low, s.high))) s.large;
  silent = s.silent;
}
step-IsSearching p (expires now) s = record {
  active = s.active;
  low = s.low;
  high = ground (arith, s.low, s.high);
  large = still_pending-Large now p.pending s.large;
  silent = rw (keepalive_loss-Large now p.pending s.large) s.silent;
}

after-IsSearching : (start : ℕ) (events : List Event) → IsSearching (after start events)
unfolding after new
after-IsSearching start [] = record {
  active = refl;
  low = omega arith;
  high = omega arith;
  large = tt;
  silent = refl;
}
after-IsSearching start (e ∷ earlier) =
    step-IsSearching (after start earlier) e (after-IsSearching start earlier)

-- A path that never echoes a probe never asks for a migration, however many probes are sent and time
-- out: the search for the MTU does not end without an echo, and while it lasts no timeout
-- is counted.
pub after-silent :
    (start : ℕ) (events : List Event)
    → ((after start events).probing_mtu ≡ true)
      × ((after start events).consecutive_timeouts ≡ 0)
      × (should_migrate (after start events) ≡ false)
unfolding should_migrate
after-silent start events =
    let s = after-IsSearching start events in (s.active, s.silent, rw s.silent refl)
