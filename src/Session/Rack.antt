-- ===== src/Session/Rack.antt =====
-- src/session/rack.rs: loss detection by send times (RACK). Instants are nanoseconds of the clock and
-- `now` is what `Instant::now()` gives; durations are nanoseconds.
pub mod Criterion
pub mod Losses
mod Tests
use seam.Prelude.{
  ℕ, ◌+◌, ◌-◌, ◌*◌, ◌/◌, ◌%◌, min, max, List, [], ◌∷◌, Option, none, some, Bool, true, false, ◌&&◌,
  ◌||◌, leb, ltb, ◌==◌, if◌then◌else◌, length,
}
use seam.Prelude.Bytes.{u64_mod}
use seam.Prelude.Map.{Map, lookup, insert, remove}
use seam.Prelude.Words.{add64, mul64, saturating_add}
use seam.Session.Arq.{millis, micros}

abbrev pub rack_reorder_frac_num : ℕ
rack_reorder_frac_num = 1

abbrev pub rack_reorder_frac_den : ℕ
rack_reorder_frac_den = 4

pub record InFlightPacket : Type 0 where
  pub contents : List ℕ
  pub sent_at : ℕ
  pub size : ℕ
  pub retransmits : ℕ

pub record RackTracker : Type 0 where
  pub in_flight : Map InFlightPacket
  pub rack_xmit_time : Option ℕ
  pub rack_end_seq : ℕ
  pub reorder_window : ℕ
  pub srtt_us : ℕ
  pub rttvar_us : ℕ
  pub min_rtt : ℕ
  pub losses_detected : ℕ
  pub acks_received : ℕ

pub new : RackTracker
new = record {
  in_flight = [];
  rack_xmit_time = none;
  rack_end_seq = 0;
  reorder_window = millis 5;
  srtt_us = 0;
  rttvar_us = 0;
  min_rtt = millis 1_000;
  losses_detected = 0;
  acks_received = 0;
}

pub on_sent : ℕ → RackTracker → ℕ → List ℕ → ℕ → RackTracker
on_sent now t pkt_num contents size = record t {
  in_flight =
      insert pkt_num (record { contents = contents; sent_at = now; size = size; retransmits = 0 })
        t.in_flight;
}

abbrev abs_diff : ℕ → ℕ → ℕ
abs_diff a b = if ltb a b then b - a else a - b

pub update_rtt : RackTracker → ℕ → RackTracker
update_rtt t rtt =
    let rtt_us = rtt / 1_000 % u64_mod in
    let diff = abs_diff t.srtt_us rtt_us in
    let first = t.srtt_us == 0 in
    record t {
      min_rtt = if ltb rtt t.min_rtt || (t.min_rtt == millis 1_000) then rtt else t.min_rtt;
      srtt_us = if first then rtt_us else add64 (mul64 7 t.srtt_us / 8) (rtt_us / 8);
      rttvar_us = if first then rtt_us / 2 else add64 (mul64 3 t.rttvar_us / 4) (diff / 4);
    }

-- A packet that is reported as lost: its number, its contents and its size.
abbrev pub Lost : Type 0
Lost = ℕ × List ℕ × ℕ

-- The packets that satisfy the test, in the order of their numbers.
pub reported : (ℕ → InFlightPacket → Bool) → Map InFlightPacket → List Lost
reported test [] = []
reported test ((pn, pkt) ∷ m) =
    let rest = reported test m in if test pn pkt then (pn, pkt.contents, pkt.size) ∷ rest else rest

-- `for k in keys_to_remove { self.in_flight.remove(&k); }`
pub remove_all : List Lost → Map InFlightPacket → Map InFlightPacket
remove_all [] m = m
remove_all ((pn, contents, size) ∷ keys) m = remove_all keys (remove pn m)

-- `Instant::checked_sub`, from the clock's zero on.
abbrev pub threshold : Option ℕ → ℕ → Option ℕ
threshold none window = none
threshold (some reference) window = if ltb reference window then none else some (reference - window)

abbrev pub overdue : RackTracker → ℕ → InFlightPacket → Bool
overdue t pn pkt = elim (threshold t.rack_xmit_time t.reorder_window) [
  | none ↦ false
  | some limit ↦ ltb pn t.rack_end_seq && ltb pkt.sent_at limit
]

-- Without a threshold nothing is reported, as `overdue` is then false.
pub detect_losses : RackTracker → List Lost × RackTracker
unfolding reported remove_all
detect_losses t =
    let lost = reported (overdue t) t.in_flight in
    (lost, record t { in_flight = remove_all lost t.in_flight })

-- The reference is updated "only for in-order ACKs".
pub reference : RackTracker → ℕ → InFlightPacket → RackTracker
reference t pkt_num pkt =
    if leb t.rack_end_seq pkt_num
    then record t { rack_end_seq = pkt_num; rack_xmit_time = some pkt.sent_at }
    else t

-- "Karn's algorithm: skip retransmits"
pub sampled : RackTracker → ℕ → InFlightPacket → RackTracker
unfolding update_rtt
sampled t rtt pkt = if pkt.retransmits == 0 then update_rtt t rtt else t

-- "Recompute reorder window: max(1ms, 1/4 × SRTT)"
pub with_window : RackTracker → RackTracker
with_window t =
    let frac_us = mul64 t.srtt_us rack_reorder_frac_num / rack_reorder_frac_den in
    if ltb 0 t.srtt_us then record t { reorder_window = max (micros frac_us) (millis 1) } else t

-- The tracker on which the losses are detected, once `pkt` has been removed from it.
pub acknowledged : ℕ → RackTracker → ℕ → InFlightPacket → RackTracker
unfolding reference sampled with_window
acknowledged now t pkt_num pkt =
    with_window (sampled (reference t pkt_num pkt) (now - pkt.sent_at) pkt)

pub on_ack : ℕ → RackTracker → ℕ → (Option ℕ × List Lost) × RackTracker
unfolding acknowledged detect_losses
on_ack now t pkt_num =
    let t' = record t { acks_received = saturating_add t.acks_received 1 } in
    elim (lookup pkt_num t.in_flight) [
      | none ↦ ((none, []), t')
      | some pkt ↦
          let t'' =
            acknowledged now (record t' { in_flight = remove pkt_num t.in_flight }) pkt_num pkt in
          let (losses, t''') = detect_losses t'' in
          (
            (if pkt.retransmits == 0 then some (now - pkt.sent_at) else none, losses),
            record t''' { losses_detected = saturating_add t'''.losses_detected (length losses) },
          )
    ]

-- "Returns losses detected purely by timeout (PTO fallback)."
pub detect_tail_loss : ℕ → RackTracker → ℕ → List Lost × RackTracker
unfolding reported remove_all
detect_tail_loss now t pto =
    let lost = reported (λ pn pkt. ltb pto (now - pkt.sent_at)) t.in_flight in
    (
      lost,
      record t {
        in_flight = remove_all lost t.in_flight;
        losses_detected = saturating_add t.losses_detected (length lost);
      },
    )

pub srtt : RackTracker → ℕ
srtt t = micros t.srtt_us

pub rttvar : RackTracker → ℕ
rttvar t = micros t.rttvar_us

pub in_flight_count : RackTracker → ℕ
in_flight_count t = length t.in_flight

abbrev sizes : Map InFlightPacket → ℕ
sizes [] = 0
sizes ((pn, pkt) ∷ m) = add64 pkt.size (sizes m)

pub in_flight_bytes : RackTracker → ℕ
in_flight_bytes t = sizes t.in_flight

-- "Probe Timeout: SRTT + 4·RTTVAR + max_ack_delay, clamped."
pub pto : RackTracker → ℕ
pto t =
    let pto_us = add64 (add64 t.srtt_us (mul64 4 t.rttvar_us)) 25_000 in
    min (micros (max pto_us 200_000)) (millis 60_000)
