-- ===== src/Transport/Probe/Tests.antt =====
-- Instances of the theorems about src/transport/probe.rs.
use seam.Prelude.{ℕ, List, [], ◌∷◌, true, false, ◌≡◌, arith}
use seam.Transport.Probe.{new, should_migrate}
use seam.Transport.Probe.Search.{rounds, Converged, rounds-new}
use seam.Transport.Probe.Silence.{Event, sends, expires, after, after-silent}

abbrev times : List (ℕ × ℕ)
times = (0, 7) ∷ (1, 7) ∷ (2, 7) ∷ (3, 7) ∷ (4, 7) ∷ (5, 7) ∷ (6, 7) ∷ (7, 7) ∷ (8, 7) ∷ []

rounds-new_example : Converged 1400 (rounds 1400 times (new 0))
rounds-new_example = rounds-new 1400 0 times (omega arith) (omega arith)

-- Three probes that are lost.
abbrev losses : List Event
losses =
    expires 12_000_000_000
    ∷ sends 10_000_000_000 7
    ∷ expires 7_000_000_000
    ∷ sends 5_000_000_000 7
    ∷ expires 2_000_000_000
    ∷ sends 0 7
    ∷ []

after-silent_example :
    ((after 0 losses).probing_mtu ≡ true)
    × ((after 0 losses).consecutive_timeouts ≡ 0)
    × (should_migrate (after 0 losses) ≡ false)
after-silent_example = after-silent 0 losses
