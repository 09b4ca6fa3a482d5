-- ===== src/Session/Receiving/Releases.antt =====
-- What an acknowledgement releases in src/session/mod.rs.
use seam.Prelude.{
  ℕ, zero, suc, ◌+◌, ◌-◌, ◌≤◌, List, [], ◌∷◌, Option, none, some, true, ◌&&◌, ◌≡◌, refl, ap, ◌∙◌,
  arith, ltb, leb, if◌then◌else◌,
}
use seam.Session.Arq
use seam.Session.Arq.{ArqTracker}
use seam.Session.Arq.Outstanding.{held, held-on_ack}
use seam.Session.Ack.{parse_ack_frame, build_frame}
use seam.Session.Ack.Numbers.{mem, covered}
use seam.Session.Ack.Tracking
use seam.Session.Ack.Tracking.{Arrival, Fit, numbers, build_frame-largest}
use seam.Session.State.{Session}
use seam.Session.Receiving.{
  AckProgress, note_acked, ack_numbers, ack_ranges, note_feedback, handle_ack_frame,
}

arq-note_acked :
    (r : Option (ℕ × ℕ)) (arq : ArqTracker) (p : AckProgress) → (note_acked (r, arq) p).arq ≡ arq
arq-note_acked none arq p = refl
arq-note_acked (some (rtt, bytes)) arq p = refl

module _ (now : ℕ) where
  held-ack_numbers :
      (count pn n : ℕ) (p : AckProgress)
      → held (ack_numbers now count pn p).arq n
        ≡ (if leb pn n && ltb n (pn + count) then none else held p.arq n)
  unfolding ack_numbers
  held-ack_numbers zero pn n p = ground arith
  held-ack_numbers (suc count) pn n p =
      held-ack_numbers count (suc pn) n (note_acked (Arq.on_ack now p.arq pn) p)
      ∙ ap (λ o. if leb (suc pn) n && ltb n (suc pn + count) then none else o)
          (ap (λ t. held t n)
              (arq-note_acked (Arq.on_ack now p.arq pn).0 (Arq.on_ack now p.arq pn).1 p)
            ∙ held-on_ack now pn n p.arq)
      ∙ ground arith

  held-ack_ranges :
      (ranges : List (ℕ × ℕ)) (n : ℕ) (p : AckProgress)
      → held (ack_ranges now ranges p).arq n ≡ (if covered n ranges then none else held p.arq n)
  unfolding ack_ranges
  held-ack_ranges [] n p = refl
  held-ack_ranges ((start, end_) ∷ ranges) n p =
      held-ack_ranges ranges n (ack_numbers now (suc end_ - start) start p)
      ∙ ap (λ o. if covered n ranges then none else o)
          (held-ack_numbers (suc end_ - start) start n p)
      ∙ ground arith

  held-handle_ack_frame :
      (s : Session) (frame : List ℕ) (largest delay : ℕ) (ranges : List (ℕ × ℕ))
      → parse_ack_frame frame ≡ some (largest, delay, ranges)
      → (n : ℕ)
      → held (handle_ack_frame now s frame).arq n
        ≡ (if covered n ranges then none else held s.arq n)
  unfolding handle_ack_frame note_feedback
  held-handle_ack_frame s frame largest delay ranges h n =
      rw (h, handle_ack_frame) (held-ack_ranges ranges n _)

-- The acknowledgement of a peer to which packets have arrived, the numbers of which have 64 bits and
-- the last of which is `last`, releases from a session exactly those packets in flight that are among
-- them and have numbers at most 8192 below the largest of them; what else is in flight stays there.
pub handle_ack_frame-releases :
    (now later : ℕ) (s : Session) (last : Arrival) (earlier : List Arrival)
    → Fit (numbers (last ∷ earlier))
    → (largest : ℕ) × ((n : ℕ)
        → held
            (handle_ack_frame later s (build_frame now (Tracking.after (last ∷ earlier))).0).arq
            n
          ≡ (if mem n (numbers (last ∷ earlier)) && leb (largest - 8192) n
              then none
              else held s.arq n))
      × ((n : ℕ) → mem n (numbers (last ∷ earlier)) ≡ true → n ≤ largest)
      × (mem largest (numbers (last ∷ earlier)) ≡ true)
handle_ack_frame-releases now later s last earlier f =
    let (ranges, largest, delay, parsed, exact, top, arrived) =
      build_frame-largest now last earlier f in
    (
      largest,
      (λ n.
          held-handle_ack_frame later s _ largest delay ranges parsed n
          ∙ ap (λ b. if b then none else held s.arq n) (exact n)),
      top,
      arrived,
    )
