-- ===== src/Session/Flow.antt =====
-- src/session/flow.rs: a credit window. The sender may not go beyond `limit` bytes in all.
pub mod Credit
mod Tests
use seam.Prelude.{ℕ, ◌+◌, ◌-◌, Bool, ltb, if◌then◌else◌}
use seam.Prelude.Words.{add64}
use seam.Error.{Result, ok, err, flow_control_blocked}

pub record FlowWindow : Type 0 where
  pub limit : ℕ
  pub consumed : ℕ

pub new : ℕ → FlowWindow
new initial_limit = record { limit = initial_limit; consumed = 0 }

-- `saturating_sub` is `-` on numbers.
unfoldable pub available : FlowWindow → ℕ
available w = w.limit - w.consumed

pub reserve : FlowWindow → ℕ → Result (Unit {0}) × FlowWindow
unfolding available
reserve w n =
    if ltb w.limit (add64 w.consumed n)
    then (err (flow_control_blocked (w.limit - w.consumed) n), w)
    else (ok tt, record w { consumed = add64 w.consumed n })

-- "Remote has extended the limit."
pub update_limit : FlowWindow → ℕ → FlowWindow
update_limit w new_limit = if ltb w.limit new_limit then record w { limit = new_limit } else w
