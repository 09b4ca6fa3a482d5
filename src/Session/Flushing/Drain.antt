-- ===== src/Session/Flushing/Drain.antt =====
-- The loop of `flush` of src/session/mod.rs that drains a stream.
use mathlib.Core.Path.{subst}
use seam.Prelude.{
  ℕ, zero, suc, ◌<◌, List, [], ◌∷◌, none, some, false, ◌≡◌, refl, ap, ◌∙◌, arith, length,
  Option-cases, inl, inr,
}
use seam.Prelude.Map.{lookup, insert}
use seam.Error.{ok}
use seam.Packet.{data_frame}
use seam.Crypto.Cipher.{Primitives}
use seam.Session.Stream
use seam.Session.Stream.{Stream}
use seam.Session.Stream.Send
use seam.Session.State.{Session}
use seam.Session.State.Credits.{Result-cases}
use seam.Session.Frames.{stream_frame}
use seam.Session.Flushing.{and_then, seal, emit_tracked, drain_stream}
use seam.Session.Flushing.Unsent.{
  Ends, Ends-and_then, Ends-mono, unsent, unsent-insert_self, injective, Shrinks, Shrinks-trans,
  Shrinks-insert, size_of,
}

module _ (P : Primitives) (now : ℕ) where
  -- What `emit_tracked` does not change.
  pub streams-emit_tracked :
      (frame : List ℕ) (s : Session)
      → ((emit_tracked P now frame s).1.streams ≡ s.streams)
        × ((emit_tracked P now frame s).1.datagrams ≡ s.datagrams)
  unfolding emit_tracked
  streams-emit_tracked frame s = elim (Result-cases (seal P now data_frame frame s.encoder).0) [
    | inl (e, h) ↦ rw (h, emit_tracked) (refl, refl)
    | inr (out, h) ↦ rw (h, emit_tracked) (refl, refl)
  ]

  -- The stream `sid` has nothing more to send, and no stream has more than before.
  abbrev pub Drained : ℕ → Session → Session → Type 0
  Drained sid s s' =
      (unsent s'.streams sid ≡ some 0) × Shrinks s.streams s'.streams × (s'.datagrams ≡ s.datagrams)

  module _ (fuel sid : ℕ) (s : Session) (stream : Stream)
      (found : lookup sid s.streams ≡ some stream) where
    abbrev polled : Session
    polled = record s { streams = insert sid (Stream.poll_send stream 1386).1 s.streams }

    drain_stream-none :
        (Stream.poll_send stream 1386).0 ≡ none
        → drain_stream P now (suc fuel) sid s ≡ some (ok [], polled)
    unfolding drain_stream
    drain_stream-none h = rw (found, drain_stream) (rw h refl)

    drain_stream-some :
        (offset : ℕ) (chunk : List ℕ)
        → (Stream.poll_send stream 1386).0 ≡ some (offset, chunk)
        → drain_stream P now (suc fuel) sid s
          ≡ and_then
              (emit_tracked P now (stream_frame sid offset chunk false) polled)
              (drain_stream P now fuel sid)
    unfolding drain_stream
    drain_stream-some offset chunk h = rw (found, drain_stream) (rw h refl)

  pub drain_stream-Ends :
      (fuel sid n : ℕ) (s : Session)
      → unsent s.streams sid ≡ some n
      → n < fuel
      → Ends (Drained sid s) (drain_stream P now fuel sid s)
  drain_stream-Ends zero sid n s h l = absurd (omega arith)
  drain_stream-Ends (suc fuel) sid n s h l = elim (Option-cases (lookup sid s.streams)) [
    | inl missing ↦ absurd (ground (arith, ap size_of missing))
    | inr (stream, found) ↦ by_buffer (drain_stream-Ends fuel sid) stream found stream.send_buf refl
  ]
    where
      by_buffer :
          ((m : ℕ) (s' : Session)
            → unsent s'.streams sid ≡ some m
            → m < fuel
            → Ends (Drained sid s') (drain_stream P now fuel sid s'))
          → (stream : Stream) → lookup sid s.streams ≡ some stream
          → (buf : List ℕ) → stream.send_buf ≡ buf
          → Ends (Drained sid s) (drain_stream P now (suc fuel) sid s)
      by_buffer next stream found [] e =
          rw
            (drain_stream-none fuel sid s stream found
              (ap (λ r. r.0) (Send.poll_nothing stream 1386 e)))
            (rw (ap (λ r. r.1) (Send.poll_nothing stream 1386 e)) (
              unsent-insert_self sid stream s.streams ∙ ap (λ buf. some (length buf)) e,
              Shrinks-insert sid n stream s.streams h
                  (omega (arith, injective _ n (length stream.send_buf) h (ap size_of found))),
              refl,
            ))
      by_buffer next stream found (b ∷ bs) e =
          let ((offset, chunk), some_, less) = Send.poll_chunk stream 1386 b bs (omega arith) e in
          let size = injective _ n (length stream.send_buf) h (ap size_of found) in
          let stream' = (Stream.poll_send stream 1386).1 in
          rw (drain_stream-some fuel sid s stream found offset chunk some_) (
            Ends-and_then
              (λ s'. (s'.streams ≡ insert sid stream' s.streams) × (s'.datagrams ≡ s.datagrams))
              (Drained sid s) _ _
              (streams-emit_tracked (stream_frame sid offset chunk false)
                (polled fuel sid s stream found))
              (λ s' (same, kept).
                Ends-mono (Drained sid s') (Drained sid s) _
                  (λ s'' (none_, shrinks, kept'). (
                    none_,
                    Shrinks-trans s.streams (insert sid stream' s.streams) s''.streams
                        (Shrinks-insert sid n stream' s.streams h (omega arith))
                        (subst (λ m. Shrinks m s''.streams) same shrinks),
                    kept' ∙ kept,
                  ))
                  (next (length stream'.send_buf) s'
                    (ap (λ m. unsent m sid) same ∙ unsent-insert_self sid stream' s.streams)
                    (omega arith))))
