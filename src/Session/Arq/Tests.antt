-- ===== src/Session/Arq/Tests.antt =====
-- Instances of the theorems about src/session/arq.rs.
use seam.Prelude.{List, [], ◌∷◌, ◌≡◌, refl, arith}
use seam.Prelude.Map.{lookup}
use seam.Session.Arq.{ArqTracker, millis, drain_expired, expire}
use seam.Session.Arq.Outstanding.{
  Event, sent, acked, drained, after, held, outstanding, after-outstanding,
}
use seam.Session.Arq.Timeout.{InRange, due, after-InRange, drain_expired-due}

-- Packet 5 is sent, times out, and is acknowledged; packet 6 is still in flight.
abbrev events : List Event
events =
    acked 900_000_000 5 ∷ drained 400_000_000 ∷ sent 350_000_000 6 (2 ∷ []) ∷ sent 0 5 (1 ∷ []) ∷ []

abbrev waiting : ArqTracker
waiting = record {
  in_flight =
      (5, record { bytes = 1 ∷ []; sent_at = 0; retransmits = 0 })
      ∷ (6, record { bytes = 2 ∷ []; sent_at = 350_000_000; retransmits = 0 })
      ∷ [];
  rto = millis 300;
  srtt_us = 0;
  rttvar_us = 0;
}

-- The source's test `expired_packets_are_retransmitted_and_backoff_applies`, with a second packet.
expired-waiting : (drain_expired 400_000_000 waiting).0 ≡ (5, 1 ∷ []) ∷ []
unfolding drain_expired expire
expired-waiting = refl

after-outstanding_example : held (after events) 6 ≡ outstanding events 6
after-outstanding_example = after-outstanding events 6

after-InRange_example : InRange (after events)
after-InRange_example = after-InRange events

drain_expired-due_example :
    lookup 5 (drain_expired 400_000_000 waiting).0
    ≡ due 400_000_000 (millis 300) (lookup 5 waiting.in_flight)
drain_expired-due_example = drain_expired-due 400_000_000 5 waiting (omega arith, (omega arith, tt))
