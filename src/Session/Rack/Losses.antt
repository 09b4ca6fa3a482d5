-- ===== src/Session/Rack/Losses.antt =====
-- Which packets src/session/rack.rs declares lost.
use seam.Prelude.{
  ℕ, suc, ◌-◌, ◌<◌, List, [], ◌∷◌, Option, none, some, Bool, true, false, ◌≡◌, refl, sym, ap, ◌∙◌,
  arith, ◌==◌, ltb, leb, if◌then◌else◌,
}
use mathlib.Core.Path.{subst, ap₂}
use seam.Prelude.Map.{Map, lookup, remove, lookup-remove, Above, Above-remove}
use seam.Session.Rack.{
  InFlightPacket, RackTracker, Lost, reported, remove_all, overdue, detect_losses, reference,
  sampled, with_window, acknowledged, update_rtt, on_ack, detect_tail_loss,
}
use seam.Session.Rack.Criterion.{if_same, after_ack, is_lost, overdue-is_lost}

-- Everything that is reported under the number `n`.
abbrev pub reports_of : ℕ → List Lost → List (List ℕ × ℕ)
reports_of n [] = []
reports_of n ((pn, contents, size) ∷ lost) =
    let rest = reports_of n lost in if pn == n then (contents, size) ∷ rest else rest

-- One report, of the contents and the size, or none.
abbrev pub report_if : (ℕ → InFlightPacket → Bool) → ℕ → Option InFlightPacket → List (List ℕ × ℕ)
report_if test n none = []
report_if test n (some pkt) = if test n pkt then (pkt.contents, pkt.size) ∷ [] else []

abbrev pub keep_if : (ℕ → InFlightPacket → Bool) → ℕ → Option InFlightPacket → Option InFlightPacket
keep_if test n none = none
keep_if test n (some pkt) = if test n pkt then none else some pkt

abbrev is_reported : List (List ℕ × ℕ) → Bool
is_reported [] = false
is_reported (r ∷ rs) = true

module _ (test : ℕ → InFlightPacket → Bool) where
  reported_below :
      (b n : ℕ) (m : Map InFlightPacket) → Above b m → n < b → reports_of n (reported test m) ≡ []
  unfolding reported
  reported_below b n [] a h = refl
  reported_below b n ((pn, pkt) ∷ m) a h = ground (arith, reported_below (suc pn) n m a.1)

  reports_of-reported :
      (b n : ℕ) (m : Map InFlightPacket)
      → Above b m
      → reports_of n (reported test m) ≡ report_if test n (lookup n m)
  unfolding reported
  reports_of-reported b n [] a = refl
  reports_of-reported b n ((pn, pkt) ∷ m) a =
      ground (arith, reports_of-reported (suc pn) n m a.1, reported_below (suc pn) n m a.1)

lookup-remove_all :
    (n : ℕ) (lost : List Lost) (m : Map InFlightPacket)
    → lookup n (remove_all lost m) ≡ (if is_reported (reports_of n lost) then none else lookup n m)
unfolding remove_all
lookup-remove_all n [] m = refl
lookup-remove_all n ((pn, contents, size) ∷ lost) m =
    lookup-remove_all n lost (remove pn m)
    ∙ ap (λ o. if is_reported (reports_of n lost) then none else o) (lookup-remove pn n m)
    ∙ ground arith

kept_lem :
    (test : ℕ → InFlightPacket → Bool) (n : ℕ) (o : Option InFlightPacket)
    → (if is_reported (report_if test n o) then none else o) ≡ keep_if test n o
kept_lem test n none = refl
kept_lem test n (some pkt) = ground arith

-- The packets that satisfy the test are reported and removed, the others stay.
splits :
    (test : ℕ → InFlightPacket → Bool) (m : Map InFlightPacket) (n : ℕ)
    → Above 0 m
    → (reports_of n (reported test m) ≡ report_if test n (lookup n m))
      × (lookup n (remove_all (reported test m) m) ≡ keep_if test n (lookup n m))
splits test m n a = (
  reports_of-reported test 0 n m a,
  lookup-remove_all n (reported test m) m
      ∙ ap (λ r. if is_reported r then none else lookup n m) (reports_of-reported test 0 n m a)
      ∙ kept_lem test n (lookup n m),
)

detect_losses_lem :
    (t : RackTracker) (n : ℕ)
    → Above 0 t.in_flight
    → (reports_of n (detect_losses t).0 ≡ report_if (overdue t) n (lookup n t.in_flight))
      × (lookup n (detect_losses t).1.in_flight ≡ keep_if (overdue t) n (lookup n t.in_flight))
unfolding detect_losses
detect_losses_lem t n a = splits (overdue t) t.in_flight n a

in_flight-reference :
    (t : RackTracker) (n : ℕ) (pkt : InFlightPacket) → (reference t n pkt).in_flight ≡ t.in_flight
unfolding reference
in_flight-reference t n pkt = if_same (λ u. u.in_flight) (leb t.rack_end_seq n) _ t refl

in_flight-sampled :
    (t : RackTracker) (rtt : ℕ) (pkt : InFlightPacket) → (sampled t rtt pkt).in_flight ≡ t.in_flight
unfolding sampled update_rtt
in_flight-sampled t rtt pkt = if_same (λ u. u.in_flight) (pkt.retransmits == 0) _ t refl

in_flight-with_window : (t : RackTracker) → (with_window t).in_flight ≡ t.in_flight
unfolding with_window
in_flight-with_window t = if_same (λ u. u.in_flight) (ltb 0 t.srtt_us) _ t refl

in_flight-after_ack :
    (now : ℕ) (t : RackTracker) (pkt_num : ℕ) (pkt : InFlightPacket)
    → (after_ack now t pkt_num pkt).in_flight ≡ remove pkt_num t.in_flight
unfolding acknowledged
in_flight-after_ack now t pkt_num pkt =
    in_flight-with_window _
    ∙ in_flight-sampled _ (now - pkt.sent_at) pkt
    ∙ in_flight-reference _ pkt_num pkt

on_ack-some :
    (now : ℕ) (t : RackTracker) (pkt_num : ℕ) (pkt : InFlightPacket)
    → lookup pkt_num t.in_flight ≡ some pkt
    → ((on_ack now t pkt_num).0.1 ≡ (detect_losses (after_ack now t pkt_num pkt)).0)
      × ((on_ack now t pkt_num).1.in_flight
          ≡ (detect_losses (after_ack now t pkt_num pkt)).1.in_flight)
unfolding on_ack
on_ack-some now t pkt_num pkt h = rw (h, on_ack) (refl, refl)

-- In a tracker whose packets stand in the order of their numbers: the acknowledgement of a packet in
-- flight removes it without reporting it. Every other packet in flight is either lost: its number is
-- smaller than that of the reference, and more than the window lies between its time of sending and
-- the reference's, the reference being the acknowledged packet unless an earlier one has a larger
-- number, and the window a quarter of the smoothed round-trip time, at least a millisecond, or as it
-- was where that time has not been measured. It is then reported exactly once, with its contents and
-- size, and no longer in flight. Or it stays in flight as it was, and is not reported. No other
-- number is reported.
pub on_ack-splits :
    (now : ℕ) (t : RackTracker) (pkt_num : ℕ) (pkt : InFlightPacket) (n : ℕ)
    → Above 0 t.in_flight
    → lookup pkt_num t.in_flight ≡ some pkt
    → (reports_of n (on_ack now t pkt_num).0.1 ≡ (
        if pkt_num == n
        then []
        else report_if (is_lost now t pkt_num pkt) n (lookup n t.in_flight)))
      × (lookup n (on_ack now t pkt_num).1.in_flight ≡ (
          if pkt_num == n
          then none
          else keep_if (is_lost now t pkt_num pkt) n (lookup n t.in_flight)))
on_ack-splits now t pkt_num pkt n a h =
    let (losses, rest) = on_ack-some now t pkt_num pkt h in
    let same = in_flight-after_ack now t pkt_num pkt in
    let left = ap (lookup n) same ∙ lookup-remove pkt_num n t.in_flight in
    let test = overdue-is_lost now t pkt_num pkt in
    let (lost, kept) =
      detect_losses_lem (after_ack now t pkt_num pkt) n
        (subst (Above 0) (sym same) (Above-remove 0 pkt_num t.in_flight a)) in
    (
      ap (reports_of n) losses ∙ lost ∙ ap₂ (λ f o. report_if f n o) test left ∙ ground arith,
      ap (lookup n) rest ∙ kept ∙ ap₂ (λ f o. keep_if f n o) test left ∙ ground arith,
    )

-- A packet in flight for longer than the probe timeout is reported and removed, the others stay.
pub detect_tail_loss-splits :
    (now : ℕ) (t : RackTracker) (pto n : ℕ)
    → Above 0 t.in_flight
    → (reports_of n (detect_tail_loss now t pto).0
        ≡ report_if (λ pn pkt. ltb pto (now - pkt.sent_at)) n (lookup n t.in_flight))
      × (lookup n (detect_tail_loss now t pto).1.in_flight
          ≡ keep_if (λ pn pkt. ltb pto (now - pkt.sent_at)) n (lookup n t.in_flight))
unfolding detect_tail_loss
detect_tail_loss-splits now t pto n a = splits _ t.in_flight n a
