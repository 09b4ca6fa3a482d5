-- ===== src/Session/Flow/Credit.antt =====
-- The credit rule of src/session/flow.rs: what is granted in all stays within the announced limits.
use seam.Prelude.{ℕ, ◌+◌, ◌≤◌, ◌<◌, max, List, [], ◌∷◌, ◌≡◌, ap, arith, ltb, if◌then◌else◌}
use seam.Prelude.Bytes.{u64_mod}
use seam.Error.{Result, ok, err, flow_control_blocked}
use seam.Session.Flow.{FlowWindow, available, reserve, update_limit}

pub record IsValid (w : FlowWindow) : Type 0 where
  pub within : w.consumed ≤ w.limit
  pub word : w.limit < u64_mod

-- On a window that has not consumed more than its limit, a request that cannot overflow the counter is
-- granted exactly when it fits the credit left, and
-- then takes that much; a refused one changes nothing and reports the credit and the request.
pub reserve_lem :
    (w : FlowWindow) (n : ℕ)
    → IsValid w
    → w.consumed + n < u64_mod
    → reserve w n ≡ (
        if ltb (available w) n
        then (err (flow_control_blocked (available w) n), w)
        else (ok tt, record w { consumed = w.consumed + n }))
unfolding reserve available
reserve_lem w n v h = ground arith

-- A request that fits the credit left is granted.
pub reserve_fits :
    (w : FlowWindow) (n : ℕ)
    → IsValid w
    → n ≤ available w
    → reserve w n ≡ (ok tt, record w { consumed = w.consumed + n })
unfolding reserve available
reserve_fits w n v h = ground (arith, v.within, v.word)

-- The calls of a sender.
pub data Call : Type 0 where
  reserves : ℕ → Call
  limits : ℕ → Call

granted : Result (Unit {0}) → ℕ → ℕ
granted (ok _) n = n
granted (err e) n = 0

-- The window after the calls, and the bytes that they were granted in all.
unfoldable pub run : FlowWindow → List Call → FlowWindow × ℕ
unfolding granted
run w [] = (w, 0)
run w (reserves n ∷ calls) =
    let (answer, w') = reserve w n in
    let (w'', total) = run w' calls in (w'', granted answer n + total)
run w (limits n ∷ calls) = run (update_limit w n) calls

-- Requests and limits below half the range of u64, as any length or sum of lengths is.
abbrev pub IsSmall : List Call → Type 0
IsSmall [] = Unit
IsSmall (reserves n ∷ calls) = (n < 9_223_372_036_854_775_808) × IsSmall calls
IsSmall (limits n ∷ calls) = (n < 9_223_372_036_854_775_808) × IsSmall calls

abbrev pub largest : ℕ → List Call → ℕ
largest l [] = l
largest l (reserves n ∷ calls) = largest l calls
largest l (limits n ∷ calls) = largest (max l n) calls

reserve_step :
    (w : FlowWindow) (n : ℕ)
    → w.consumed ≤ w.limit
    → w.consumed + n < u64_mod
    → let (answer, w') = reserve w n in
      (w'.limit ≡ w.limit) × (w'.consumed ≡ w.consumed + granted answer n) × (w'.consumed ≤ w.limit)
unfolding reserve granted
reserve_step w n h k = ground arith

update_limit_step :
    (w : FlowWindow) (n : ℕ)
    → ((update_limit w n).limit ≡ max w.limit n) × ((update_limit w n).consumed ≡ w.consumed)
unfolding update_limit
update_limit_step w n = ground arith

-- After any calls on a window that has not consumed more than its limit, all requests and limits being
-- below half the range of u64: the limit is the largest ever announced, what was granted is what is
-- consumed, and it lies within that limit.
pub run-within :
    (w : FlowWindow) (calls : List Call)
    → w.consumed ≤ w.limit
    → w.limit < 9_223_372_036_854_775_808
    → IsSmall calls
    → let (w', total) = run w calls in
      (w'.consumed ≡ w.consumed + total)
      × (w'.limit ≡ largest w.limit calls)
      × (w.consumed + total ≤ largest w.limit calls)
unfolding run
run-within w [] h l s = omega arith
run-within w (reserves n ∷ calls) h l s =
    let (same, taken, within) = reserve_step w n h (omega (arith, s.0)) in
    let (a, b, c) = run-within (reserve w n).1 calls (omega arith) (omega arith) s.1 in
    let e : largest (reserve w n).1.limit calls ≡ largest w.limit calls =
      ap (λ l. largest l calls) same in
    omega arith
run-within w (limits n ∷ calls) h l s =
    let (grown, same) = update_limit_step w n in
    let (a, b, c) = run-within (update_limit w n) calls (omega arith) (omega (arith, s.0)) s.1 in
    let e : largest (update_limit w n).limit calls ≡ largest (max w.limit n) calls =
      ap (λ l. largest l calls) grown in
    omega arith
