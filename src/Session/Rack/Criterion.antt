-- ===== src/Session/Rack/Criterion.antt =====
-- The criterion by which src/session/rack.rs declares losses when a packet is acknowledged: the
-- reference, the smoothed round-trip time and the reorder window.
use seam.Prelude.{
  ◌+◌, ◌*◌, ◌/◌, ◌%◌, max, ◌&&◌, Bool-cases, inl, inr, ℕ, ◌-◌, Option, none, some, Bool, true,
  false, ◌≡◌, refl, ap, ◌∙◌, arith, ◌==◌, ltb, leb, if◌then◌else◌,
}
use mathlib.Core.Path.{ap₂, fun_ext}
use seam.Prelude.Words.{saturating_add}
use seam.Prelude.Map.{remove}
use seam.Session.Rack.{
  InFlightPacket, RackTracker, threshold, overdue, reference, sampled, with_window, acknowledged,
  update_rtt,
}

-- A packet with the number `n`, sent at `sent_at`, is late against a reference packet where its number
-- is smaller and more than the window `w` lies between the times of sending.
abbrev late : Option ℕ → ℕ → ℕ → ℕ → InFlightPacket → Bool
late none seq w n pkt = false
late (some time) seq w n pkt = ltb n seq && ltb (pkt.sent_at + w) time

overdue-late :
    (t : RackTracker) (n : ℕ) (pkt : InFlightPacket)
    → overdue t n pkt ≡ late t.rack_xmit_time t.rack_end_seq t.reorder_window n pkt
overdue-late t n pkt = by_reference t.rack_xmit_time
  where
    by_reference :
        (o : Option ℕ)
        → (elim (threshold o t.reorder_window) as (λ x. Bool) [
          | none ↦ false
          | some limit ↦ ltb n t.rack_end_seq && ltb pkt.sent_at limit
        ])
          ≡ late o t.rack_end_seq t.reorder_window n pkt
    by_reference none = refl
    by_reference (some time) = elim (Bool-cases (ltb time t.reorder_window)) [
      | inl early ↦ rw early (ground arith)
      | inr enough ↦ rw enough (ground arith)
    ]

-- The tracker in which an acknowledgement of `pkt` looks for losses.
abbrev pub after_ack : ℕ → RackTracker → ℕ → InFlightPacket → RackTracker
after_ack now t pkt_num pkt =
    acknowledged now
      (record t {
        acks_received = saturating_add t.acks_received 1;
        in_flight = remove pkt_num t.in_flight;
      })
      pkt_num pkt

module _ {ℓ} {A : Type ℓ} (f : RackTracker → A) where
  -- What neither branch changes.
  pub if_same : (b : Bool) (t u : RackTracker) → f t ≡ f u → f (if b then t else u) ≡ f u
  if_same true t u h = h
  if_same false t u h = refl

  if_field : (b : Bool) (t u : RackTracker) → f (if b then t else u) ≡ (if b then f t else f u)
  if_field true t u = refl
  if_field false t u = refl

-- The smoothed round-trip time in microseconds once `pkt` is acknowledged at `now`: the first sample
-- itself, and from then on seven eighths of what it was and one eighth of the sample, in words of 64
-- bits. A packet that was sent again gives no sample.
abbrev smoothed : ℕ → ℕ → InFlightPacket → ℕ
smoothed now srtt pkt =
    let sample = (now - pkt.sent_at) / 1_000 % 18_446_744_073_709_551_616 in
    if pkt.retransmits == 0
    then if srtt == 0
      then sample
      else (7 * srtt % 18_446_744_073_709_551_616 / 8 + sample / 8) % 18_446_744_073_709_551_616
    else srtt

-- The reorder window in nanoseconds: a quarter of the smoothed round-trip time, but at least a
-- millisecond, or the window as it was where nothing has been measured.
abbrev window_for : ℕ → ℕ → ℕ
window_for srtt window =
    if ltb 0 srtt then max (srtt * 1 % 18_446_744_073_709_551_616 / 4 * 1_000) 1_000_000 else window

-- Whether a packet is lost once `pkt`, with the number `pkt_num`, is acknowledged: it is late
-- against the acknowledged packet, or against the earlier reference if that has a larger number.
abbrev pub is_lost : ℕ → RackTracker → ℕ → InFlightPacket → ℕ → InFlightPacket → Bool
is_lost now t pkt_num pkt =
    let window = window_for (smoothed now t.srtt_us pkt) t.reorder_window in
    if leb t.rack_end_seq pkt_num
    then late (some pkt.sent_at) pkt_num window
    else late t.rack_xmit_time t.rack_end_seq window

reorder_window-with_window :
    (u : RackTracker) → (with_window u).reorder_window ≡ window_for u.srtt_us u.reorder_window
unfolding with_window
reorder_window-with_window u =
    if_field (λ v. v.reorder_window) (ltb 0 u.srtt_us)
      (record u {
        reorder_window = max (u.srtt_us * 1 % 18_446_744_073_709_551_616 / 4 * 1_000) 1_000_000;
      })
      u

-- The reference, the window and the smoothed time with which losses are looked for.
module _ (now : ℕ) (t : RackTracker) (pkt_num : ℕ) (pkt : InFlightPacket) where
  rack_xmit_time-acknowledged :
      (acknowledged now t pkt_num pkt).rack_xmit_time
      ≡ (if leb t.rack_end_seq pkt_num then some pkt.sent_at else t.rack_xmit_time)
  unfolding acknowledged with_window sampled update_rtt reference
  rack_xmit_time-acknowledged =
      if_same (λ u. u.rack_xmit_time) _ _ (sampled (reference t pkt_num pkt) _ pkt) refl
      ∙ if_same (λ u. u.rack_xmit_time) (pkt.retransmits == 0) _ (reference t pkt_num pkt) refl
      ∙ if_field (λ u. u.rack_xmit_time) (leb t.rack_end_seq pkt_num) _ t

  rack_end_seq-acknowledged :
      (acknowledged now t pkt_num pkt).rack_end_seq
      ≡ (if leb t.rack_end_seq pkt_num then pkt_num else t.rack_end_seq)
  unfolding acknowledged with_window sampled update_rtt reference
  rack_end_seq-acknowledged =
      if_same (λ u. u.rack_end_seq) _ _ (sampled (reference t pkt_num pkt) _ pkt) refl
      ∙ if_same (λ u. u.rack_end_seq) (pkt.retransmits == 0) _ (reference t pkt_num pkt) refl
      ∙ if_field (λ u. u.rack_end_seq) (leb t.rack_end_seq pkt_num) _ t

  srtt_us-sampled :
      (sampled (reference t pkt_num pkt) (now - pkt.sent_at) pkt).srtt_us
      ≡ smoothed now t.srtt_us pkt
  unfolding sampled update_rtt reference
  srtt_us-sampled =
      if_field (λ u. u.srtt_us) (pkt.retransmits == 0) _ (reference t pkt_num pkt)
      ∙ ap (λ k. smoothed now k pkt)
          (if_same (λ u. u.srtt_us) (leb t.rack_end_seq pkt_num) _ t refl)

  reorder_window-sampled :
      (sampled (reference t pkt_num pkt) (now - pkt.sent_at) pkt).reorder_window ≡ t.reorder_window
  unfolding sampled update_rtt reference
  reorder_window-sampled =
      if_same (λ u. u.reorder_window) (pkt.retransmits == 0) _ (reference t pkt_num pkt) refl
      ∙ if_same (λ u. u.reorder_window) (leb t.rack_end_seq pkt_num) _ t refl

  reorder_window-acknowledged :
      (acknowledged now t pkt_num pkt).reorder_window
      ≡ window_for (smoothed now t.srtt_us pkt) t.reorder_window
  unfolding acknowledged
  reorder_window-acknowledged =
      reorder_window-with_window (sampled (reference t pkt_num pkt) (now - pkt.sent_at) pkt)
      ∙ ap₂ window_for srtt_us-sampled reorder_window-sampled

pub overdue-is_lost :
    (now : ℕ) (t : RackTracker) (pkt_num : ℕ) (pkt : InFlightPacket)
    → overdue (after_ack now t pkt_num pkt) ≡ is_lost now t pkt_num pkt
overdue-is_lost now t pkt_num pkt = fun_ext (λ n. fun_ext (λ q.
    overdue-late (after_ack now t pkt_num pkt) n q
    ∙ (λ i.
        late (rack_xmit_time-acknowledged now started pkt_num pkt i)
          (rack_end_seq-acknowledged now started pkt_num pkt i)
          (reorder_window-acknowledged now started pkt_num pkt i) n q)
    ∙ by_order (leb t.rack_end_seq pkt_num) n q))
  where
    started : RackTracker
    started = record t {
      acks_received = saturating_add t.acks_received 1;
      in_flight = remove pkt_num t.in_flight;
    }

    window : ℕ
    window = window_for (smoothed now t.srtt_us pkt) t.reorder_window

    by_order :
        (b : Bool) (n : ℕ) (q : InFlightPacket)
        → late
            (if b then some pkt.sent_at else t.rack_xmit_time)
            (if b then pkt_num else t.rack_end_seq)
            window
            n
            q
          ≡ (if b
                then late (some pkt.sent_at) pkt_num window
                else late t.rack_xmit_time t.rack_end_seq window)
              n q
    by_order true n q = refl
    by_order false n q = refl
