-- ===== src/Session/Flow/Tests.antt =====
-- Instances of the theorems about src/session/flow.rs.
use seam.Prelude.{◌≡◌, refl, List, [], ◌∷◌}
use seam.Session.Flow.{FlowWindow, new, reserve, update_limit}
use seam.Session.Flow.Credit.{Call, reserves, limits, run}

abbrev part_used : FlowWindow
part_used = record { limit = 10; consumed = 7 }

abbrev calls : List Call
calls = reserves 40 ∷ reserves 70 ∷ limits 90 ∷ reserves 50 ∷ []

run-calls : run (new 50) calls ≡ (record { limit = 90; consumed = 90 }, 90)
unfolding run new reserve update_limit
run-calls = refl
