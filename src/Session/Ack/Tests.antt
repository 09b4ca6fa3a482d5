-- ===== src/Session/Ack/Tests.antt =====
-- Runs of src/session/ack.rs, two of them its own tests, and instances of the theorems about it.
use seam.Prelude.{ℕ, ◌-◌, ◌≤◌, List, [], ◌∷◌, some, true, false, ◌&&◌, ◌≡◌, refl, arith, leb}
use seam.Session.Ack.{
  new, on_received, prune_below, set_insert, split_off, walk, build_frame, parse_ack_frame,
}
use seam.Session.Ack.Numbers.{mem, covered}
use seam.Session.Ack.Tracking.{Arrival, numbers, after, build_frame-exact}

-- Packets 1, 2, 3, 7 and 8, out of order and one of them twice.
abbrev arrivals : List Arrival
arrivals =
    (60, 2, true)
    ∷ (50, 8, true)
    ∷ (40, 7, false)
    ∷ (30, 1, true)
    ∷ (20, 3, true)
    ∷ (10, 2, true)
    ∷ []

received-arrivals : (after arrivals).received ≡ 8 ∷ 7 ∷ 3 ∷ 2 ∷ 1 ∷ []
unfolding on_received prune_below set_insert split_off new
received-arrivals = refl

walk-gap : walk (7 ∷ 3 ∷ 2 ∷ 1 ∷ []) 8 8 ≡ (7, 8) ∷ (1, 3) ∷ []
unfolding walk
walk-gap = refl

build_frame-exact_example :
    (ranges : List (ℕ × ℕ)) × (largest : ℕ) × (delay : ℕ) × (parse_ack_frame
        (build_frame 60 (after arrivals)).0
      ≡ some (largest, delay, ranges))
    × ((n : ℕ) → covered n ranges ≡ (mem n (numbers arrivals) && leb (largest - 8192) n))
    × ((n : ℕ) → mem n (numbers arrivals) ≡ true → n ≤ largest)
build_frame-exact_example =
    build_frame-exact 60 (60, 2, true)
      ((50, 8, true) ∷ (40, 7, false) ∷ (30, 1, true) ∷ (20, 3, true) ∷ (10, 2, true) ∷ [])
      (omega arith, (omega arith, (omega arith, (omega arith, (omega arith, (omega arith, tt))))))
