-- ===== src/Session/Flushing/Done.antt =====
-- `flush` of src/session/mod.rs ends, and leaves nothing to send.
use seam.Prelude.{
  ℕ, zero, suc, ◌<◌, List, [], ◌∷◌, none, false, ◌≡◌, refl, sym, ap, ◌∙◌, arith, length,
  Option-cases, Bool-cases, inl, inr,
}
use seam.Packet.{max_data}
use seam.Crypto.Cipher.{Primitives}
use seam.Session.Datagram.Recent.{poll_send-none, poll_send-some}
use seam.Session.State.{Session}
use seam.Session.State.Credits.{Result-cases}
use seam.Session.Ack
use seam.Session.Ack.Tracking.{pending-build_frame, has_pending_ack_lem}
use seam.Session.Flushing.{
  seal, emit, flush_datagrams, flush_ack, flush_max_data, flush_pong, flush_ping, flush,
  sort_by_priority, to_be,
}
use seam.Session.Flushing.Unsent.{
  Ends, Ends-some, Ends-and_then, Ends-followed_by, mem-sort_by_priority,
}
use seam.Session.Flushing.Ends.{Short, AllSent, Sent, flush_streams-Ends}

-- What holds once the parts of `flush` have been gone through, one by one.
module _ (order : List ℕ) (s : Session) where
  abbrev DataDone : Type 0
  DataDone = AllSent order s × (s.datagrams.send_queue ≡ [])

  abbrev AckDone : Type 0
  AckDone = DataDone × (s.ack_ranges.ack_pending ≡ false)

  abbrev MaxDataDone : Type 0
  MaxDataDone = AckDone × (s.pending_max_data ≡ none)

  abbrev PongDone : Type 0
  PongDone = MaxDataDone × (s.pending_pong ≡ false)

  abbrev pub AllDone : Type 0
  AllDone = PongDone × (s.pending_ping ≡ false)

module _ (P : Primitives) (now : ℕ) where
  flush_datagrams-Ends :
      (fuel : ℕ) (order : List ℕ) (s : Session)
      → length s.datagrams.send_queue < fuel
      → AllSent order s
      → Ends (DataDone order) (flush_datagrams P now fuel s)
  unfolding flush_datagrams emit
  flush_datagrams-Ends zero order s l sent = absurd (omega arith)
  flush_datagrams-Ends (suc fuel) order s l sent =
      by_queue (flush_datagrams-Ends fuel order) s.datagrams.send_queue refl
    where
      by_queue :
          ((s' : Session)
            → length s'.datagrams.send_queue < fuel
            → AllSent order s'
            → Ends (DataDone order) (flush_datagrams P now fuel s'))
          → (q : List (List ℕ)) → s.datagrams.send_queue ≡ q
          → Ends (DataDone order) (flush_datagrams P now (suc fuel) s)
      by_queue next [] e =
          let (polled, left) = poll_send-none s.datagrams e in
          rw (polled, flush_datagrams) (sent, left)
      by_queue next (d ∷ ds) e =
          let (polled, left) = poll_send-some s.datagrams d ds e in
          rw (polled, flush_datagrams)
            (Ends-and_then (λ s'. AllSent order s' × (s'.datagrams.send_queue ≡ ds))
              (DataDone order) _ _ (sent, left)
              (λ s' (sent', left'). next s' (omega (arith, ap length left', ap length e)) sent'))

  module _ (order : List ℕ) (s : Session) where
    ack_done : DataDone order s → AckDone order (flush_ack P now s).1
    unfolding flush_ack emit
    ack_done d = elim (Bool-cases (Ack.has_pending_ack s.ack_ranges)) [
      | inl h ↦ rw (h, flush_ack) (d, pending-build_frame now s.ack_ranges)
      | inr h ↦ rw (h, flush_ack) (d, sym (has_pending_ack_lem s.ack_ranges) ∙ h)
    ]

    max_data_done : AckDone order s → MaxDataDone order (flush_max_data P now s).1
    unfolding flush_max_data emit
    max_data_done d = elim (Option-cases s.pending_max_data) [
      | inl h ↦ rw (h, flush_max_data) (d, h)
      | inr (limit, h) ↦ elim (Result-cases (seal P now max_data (to_be limit) s.encoder).0) [
        | inl (e, sealed) ↦ rw (h, flush_max_data) (rw sealed (d, refl))
        | inr (out, sealed) ↦ rw (h, flush_max_data) (rw sealed (d, refl))
      ]
    ]

    pong_done : MaxDataDone order s → PongDone order (flush_pong P now s).1
    unfolding flush_pong emit
    pong_done d = elim (Bool-cases s.pending_pong) [
      | inl h ↦ rw (h, flush_pong) (d, refl)
      | inr h ↦ rw (h, flush_pong) (d, refl)
    ]

    ping_done : PongDone order s → AllDone order (flush_ping P now s).1
    unfolding flush_ping emit
    ping_done d = elim (Bool-cases s.pending_ping) [
      | inl h ↦ rw (h, flush_ping) (d, refl)
      | inr h ↦ rw (h, flush_ping) (d, refl)
    ]

  -- `flush` ends for every iteration order of streams that are there, where the fuel exceeds the
  -- bytes that each of them has to send and the number of datagrams to send. Where it returns
  -- packets and no error, no listed stream and no datagram is left to send, and no acknowledgement,
  -- window update, pong or ping is pending.
  pub flush-Ends :
      (fuel : ℕ) (order : List ℕ) (s : Session)
      → Short fuel order s
      → length s.datagrams.send_queue < fuel
      → Ends (AllDone order) (flush P now fuel order s)
  unfolding flush
  flush-Ends fuel order s short few =
      Ends-followed_by (PongDone order) (AllDone order) _ _
        (Ends-followed_by (MaxDataDone order) (PongDone order) _ _
          (Ends-followed_by (AckDone order) (MaxDataDone order) _ _
            (Ends-followed_by (DataDone order) (AckDone order) _ _
              (Ends-followed_by (Sent sorted s) (DataDone order) _ _
                (flush_streams-Ends P now fuel sorted s
                  (λ k e. short k (sym (mem-sort_by_priority s.streams k order) ∙ e)))
                (λ s' (sent, shrinks, kept).
                  flush_datagrams-Ends fuel order s'
                    (omega (arith, ap (λ q. length q.send_queue) kept))
                    (λ k e. sent k (mem-sort_by_priority s.streams k order ∙ e))))
              (λ s' d. Ends-some (AckDone order) (flush_ack P now s') (ack_done order s' d)))
            (λ s' d.
              Ends-some (MaxDataDone order) (flush_max_data P now s') (max_data_done order s' d)))
          (λ s' d. Ends-some (PongDone order) (flush_pong P now s') (pong_done order s' d)))
        (λ s' d. Ends-some (AllDone order) (flush_ping P now s') (ping_done order s' d))
    where
      sorted : List ℕ
      sorted = sort_by_priority s.streams order
