-- ===== src/Session/Ack.antt =====
-- src/session/ack.rs: acknowledgement by ranges. The set of received packet numbers (a `BTreeSet`) is
-- the list of its elements, largest first. Times are nanoseconds, and `now` is what
-- `Instant::now()` gives.
pub mod Numbers
pub mod Frame
pub mod Tracking
mod Tests
use seam.Prelude.{
  ℕ, zero, suc, ◌+◌, ◌-◌, ◌/◌, ◌%◌, List, [], ◌∷◌, ◌++◌, Option, none, some, Bool, true, false,
  ◌||◌, ltb, leb, ◌==◌, if◌then◌else◌, length,
}
use seam.Prelude.Bytes.{u16_mod, u64_mod, to_le, from_le, slice}
use seam.Prelude.Words.{add64}

-- The largest number, the delay and the ranges, each with its first and its last number.
abbrev pub AckFrame : Type 0
AckFrame = ℕ × ℕ × List (ℕ × ℕ)

abbrev pub ack_retain_window : ℕ
ack_retain_window = 8192

pub record AckRanges : Type 0 where
  pub received : List ℕ
  pub largest_received_at : Option ℕ
  pub largest_received : ℕ
  pub ack_pending : Bool

pub new : AckRanges
new = record {
  received = [];
  largest_received_at = none;
  largest_received = 0;
  ack_pending = false;
}

abbrev pub is_nil : List ℕ → Bool
is_nil [] = true
is_nil (x ∷ xs) = false

-- `BTreeSet::insert`
pub set_insert : ℕ → List ℕ → List ℕ
set_insert pn [] = pn ∷ []
set_insert pn (x ∷ xs) =
    let rest = set_insert pn xs in
    if ltb x pn then pn ∷ x ∷ xs else if x == pn then x ∷ xs else x ∷ rest

-- `BTreeSet::split_off`: the elements of at least `threshold`.
pub split_off : ℕ → List ℕ → List ℕ
split_off threshold [] = []
split_off threshold (x ∷ xs) =
    let rest = split_off threshold xs in if leb threshold x then x ∷ rest else rest

pub prune_below : ℕ → AckRanges → AckRanges
unfolding split_off
prune_below threshold a = record a { received = split_off threshold a.received }

pub on_received : ℕ → AckRanges → ℕ → Bool → AckRanges
unfolding set_insert prune_below
on_received now a pn ack_eliciting =
    let newest = ltb a.largest_received pn || is_nil a.received in
    let a' = record a {
      largest_received = if newest then pn else a.largest_received;
      largest_received_at = if newest then some now else a.largest_received_at;
      received = set_insert pn a.received;
      ack_pending = if ack_eliciting then true else a.ack_pending;
    } in
    prune_below (a'.largest_received - ack_retain_window) a'

pub has_pending_ack : AckRanges → Bool
has_pending_ack a = a.ack_pending

pub is_empty : AckRanges → Bool
is_empty a = is_nil a.received

-- "Walk downward from `largest`, forming contiguous ranges", the one at hand being from `cur_start`
-- to `cur_end`.
pub walk : List ℕ → ℕ → ℕ → List (ℕ × ℕ)
walk [] cur_start cur_end = (cur_start, cur_end) ∷ []
walk (pn ∷ rest) cur_start cur_end =
    let joined = walk rest pn cur_end in
    let apart = walk rest pn pn in
    if add64 pn 1 == cur_start then joined else (cur_start, cur_end) ∷ apart

-- The gap and the length of each range after the first.
pub put_ranges : ℕ → List (ℕ × ℕ) → List ℕ
put_ranges prev_start [] = []
put_ranges prev_start ((start, end_) ∷ ranges) =
    to_le 8 (prev_start - end_ - 1) ++ (to_le 8 (end_ - start) ++ put_ranges start ranges)

pub put_frame : ℕ → ℕ → List (ℕ × ℕ) → List ℕ
unfolding put_ranges
put_frame largest ack_delay_us [] = []
put_frame largest ack_delay_us ((start, end_) ∷ extra) =
    to_le 8 largest
    ++ (to_le 8 ack_delay_us
        ++ (to_le 2 (length extra % u16_mod) ++ (to_le 8 (end_ - start) ++ put_ranges start extra)))

abbrev pub delay_since : ℕ → Option ℕ → ℕ
delay_since now none = 0
delay_since now (some t) = (now - t) / 1_000 % u64_mod

pub build_frame : ℕ → AckRanges → List ℕ × AckRanges
unfolding walk put_frame
build_frame now a = elim a.received [
  | [] ↦ (to_le 8 0 ++ (to_le 8 0 ++ (to_le 2 0 ++ to_le 8 0)), record a { ack_pending = false })
  | largest ∷ below ↦ (
    put_frame largest (delay_since now a.largest_received_at) (walk below largest largest),
    record a { ack_pending = false },
  )
]

pub checked_sub : ℕ → ℕ → Option ℕ
checked_sub a b = if ltb a b then none else some (a - b)

abbrev pub and_then {ℓ κ} : {A : Type ℓ} {B : Type κ} → Option A → (A → Option B) → Option B
and_then none f = none
and_then (some a) f = f a

-- The `range_count` ranges from `off` on, below a range that begins at `cur_start`.
pub parse_ranges : ℕ → ℕ → List ℕ → ℕ → Option (List (ℕ × ℕ))
unfolding checked_sub
parse_ranges zero off frame cur_start = some []
parse_ranges (suc n) off frame cur_start =
    let gap = from_le (slice frame off (off + 8)) in
    let len = from_le (slice frame (off + 8) (off + 16)) in
    let rest : ℕ → Option (List (ℕ × ℕ)) = parse_ranges n (off + 16) frame in
    if ltb (length frame) (off + 16)
    then none
    else and_then (checked_sub cur_start (add64 gap 1)) (λ end_.
      and_then (checked_sub end_ len)
        (λ start. and_then (rest start) (λ ranges. some ((start, end_) ∷ ranges))))

pub parse_ack_frame : List ℕ → Option AckFrame
unfolding parse_ranges
parse_ack_frame frame =
    let largest = from_le (slice frame 0 8) in
    let ack_delay_us = from_le (slice frame 8 16) in
    let range_count = from_le (slice frame 16 18) in
    let first_range_len = from_le (slice frame 18 26) in
    let start = largest - first_range_len in
    if ltb (length frame) 26
    then none
    else and_then (parse_ranges range_count 26 frame start)
        (λ ranges. some (largest, ack_delay_us, (start, largest) ∷ ranges))
