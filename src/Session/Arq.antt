-- ===== src/Session/Arq.antt =====
-- src/session/arq.rs: packets in flight and their retransmission after a timeout. Instants and
-- durations are nanoseconds; `now` is what `Instant::now()` gives.
pub mod Outstanding
pub mod Timeout
mod Tests
use seam.Prelude.{
  ℕ, ◌+◌, ◌-◌, ◌*◌, ◌/◌, ◌%◌, min, max, List, [], ◌∷◌, Option, none, some, Bool, true, false, leb,
  ltb, ◌==◌, if◌then◌else◌, length,
}
use seam.Prelude.Bytes.{u32_mod, u64_mod}
use seam.Prelude.Map.{Map, lookup, insert, remove}
use seam.Prelude.Words.{add64, mul64}

pub record InFlight : Type 0 where
  pub bytes : List ℕ
  pub sent_at : ℕ
  pub retransmits : ℕ

pub record ArqTracker : Type 0 where
  pub in_flight : Map InFlight
  pub rto : ℕ
  pub srtt_us : ℕ
  pub rttvar_us : ℕ

-- `Duration::from_millis` and `Duration::from_micros`
abbrev pub millis : ℕ → ℕ
millis n = n * 1_000_000

abbrev pub micros : ℕ → ℕ
micros n = n * 1_000

pub new : ArqTracker
new = record { in_flight = []; rto = millis 300; srtt_us = 0; rttvar_us = 0 }

pub on_sent : ℕ → ArqTracker → ℕ → List ℕ → ArqTracker
on_sent now t pkt_num contents = record t {
  in_flight =
      insert pkt_num (record { bytes = contents; sent_at = now; retransmits = 0 }) t.in_flight;
}

abbrev abs_diff : ℕ → ℕ → ℕ
abs_diff a b = if ltb a b then b - a else a - b

-- "RTO = SRTT + 4*RTTVAR, clamped to [200ms, 60s]"
pub clamped_rto : ℕ → ℕ → ℕ
clamped_rto srtt_us rttvar_us =
    min (max (micros (add64 srtt_us (mul64 4 rttvar_us))) (millis 200)) (millis 60_000)

-- The first measurement, and the updates of RFC 6298.
pub update_rtt : ArqTracker → ℕ → ArqTracker
unfolding clamped_rto
update_rtt t rtt =
    let rtt_us = rtt / 1_000 % u64_mod in
    let diff = abs_diff t.srtt_us rtt_us in
    let first = t.srtt_us == 0 in
    let rttvar_us = if first then rtt_us / 2 else add64 (mul64 3 t.rttvar_us / 4) (diff / 4) in
    let srtt_us = if first then rtt_us else add64 (mul64 7 t.srtt_us / 8) (rtt_us / 8) in
    record t { srtt_us = srtt_us; rttvar_us = rttvar_us; rto = clamped_rto srtt_us rttvar_us }

-- A packet that was retransmitted gives no sample (Karn's algorithm).
pub on_ack : ℕ → ArqTracker → ℕ → Option (ℕ × ℕ) × ArqTracker
unfolding update_rtt
on_ack now t pkt_num = elim (lookup pkt_num t.in_flight) [
  | none ↦ (none, t)
  | some pkt ↦
      let t' = record t { in_flight = remove pkt_num t.in_flight } in
      let rtt = now - pkt.sent_at in
      if pkt.retransmits == 0
      then (some (rtt, length pkt.bytes), update_rtt t' rtt)
      else (some (0, length pkt.bytes), t')
]

-- What is to be sent again, and the packets with their new times.
pub expire : ℕ → ℕ → Map InFlight → List (ℕ × List ℕ) × Map InFlight
expire now rto [] = ([], [])
expire now rto ((pkt_num, pkt) ∷ rest) =
    let (expired, kept) = expire now rto rest in
    if leb rto (now - pkt.sent_at)
    then (
      (pkt_num, pkt.bytes) ∷ expired,
      (pkt_num, record pkt { sent_at = now; retransmits = (pkt.retransmits + 1) % u32_mod }) ∷ kept,
    )
    else (expired, (pkt_num, pkt) ∷ kept)

abbrev is_nil : List (ℕ × List ℕ) → Bool
is_nil [] = true
is_nil (x ∷ xs) = false

-- "Exponential backoff on timeout"
pub drain_expired : ℕ → ArqTracker → List (ℕ × List ℕ) × ArqTracker
unfolding expire
drain_expired now t =
    let (expired, kept) = expire now t.rto t.in_flight in
    (
      expired,
      record t {
        in_flight = kept;
        rto = if is_nil expired then t.rto else min (t.rto * 2) (millis 60_000);
      },
    )

pub in_flight_count : ArqTracker → ℕ
in_flight_count t = length t.in_flight

pub srtt : ArqTracker → ℕ
srtt t = micros t.srtt_us
