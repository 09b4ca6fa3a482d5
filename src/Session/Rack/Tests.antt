-- ===== src/Session/Rack/Tests.antt =====
-- Instances of the theorems about src/session/rack.rs.
use seam.Prelude.{[], ◌∷◌, none, ◌≡◌, refl, arith, ◌==◌, if◌then◌else◌}
use seam.Prelude.Map.{lookup}
use seam.Session.Arq.{millis}
use seam.Session.Rack.{
  InFlightPacket, RackTracker, on_ack, reference, sampled, update_rtt, with_window, acknowledged,
  detect_losses, reported, remove_all,
}
use seam.Session.Rack.Losses.{reports_of, report_if, keep_if, on_ack-splits}
use seam.Session.Rack.Criterion.{is_lost}

abbrev old : InFlightPacket
old = record { contents = 1 ∷ []; sent_at = 0; size = 100; retransmits = 0 }

abbrev young : InFlightPacket
young = record { contents = 2 ∷ []; sent_at = 25_000_000; size = 100; retransmits = 0 }

-- The source's test `rack_declares_earlier_packet_lost_on_later_ack`.
abbrev waiting : RackTracker
waiting = record {
  in_flight = (1, old) ∷ (2, young) ∷ [];
  rack_xmit_time = none;
  rack_end_seq = 0;
  reorder_window = millis 5;
  srtt_us = 20_000;
  rttvar_us = 0;
  min_rtt = millis 1_000;
  losses_detected = 0;
  acks_received = 0;
}

earlier-lost : (on_ack 30_000_000 waiting 2).0.1 ≡ (1, 1 ∷ [], 100) ∷ []
unfolding on_ack acknowledged reference sampled update_rtt with_window detect_losses reported
    remove_all
earlier-lost = refl

on_ack-splits_example :
    (reports_of 1 (on_ack 30_000_000 waiting 2).0.1 ≡ (
      if 2 == 1
      then []
      else report_if (is_lost 30_000_000 waiting 2 young) 1 (lookup 1 waiting.in_flight)))
    × (lookup 1 (on_ack 30_000_000 waiting 2).1.in_flight ≡ (
        if 2 == 1
        then none
        else keep_if (is_lost 30_000_000 waiting 2 young) 1 (lookup 1 waiting.in_flight)))
on_ack-splits_example =
    on_ack-splits 30_000_000 waiting 2 young 1 (omega arith, (omega arith, tt)) refl
