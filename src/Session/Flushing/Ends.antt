-- ===== src/Session/Flushing/Ends.antt =====
-- `flush` of src/session/mod.rs ends, and leaves nothing to send.
use mathlib.Core.Path.{subst}
use seam.Prelude.{
  ℕ, ◌<◌, List, [], ◌∷◌, some, true, ◌≡◌, refl, sym, ap, ◌∙◌, arith, length, Option-cases,
  Bool-cases, inl, inr, ◌==◌,
}
use seam.Prelude.Map.{lookup, insert}
use seam.Crypto.Cipher.{Primitives}
use seam.Session.Stream
use seam.Session.Stream.{Stream}
use seam.Session.Stream.Send
use seam.Session.Frames.{stream_frame}
use seam.Session.State.{Session}
use seam.Session.Ack.Numbers.{mem}
use seam.Session.Flushing.{emit_tracked, drain_stream, flush_fin, flush_streams, followed_by}
use seam.Session.Flushing.Unsent.{
  Ends, Ends-some, Ends-followed_by, Ends-mono, unsent, injective, Shrinks, Shrinks-refl,
  Shrinks-trans, Shrinks-insert, size_of,
}
use seam.Session.Flushing.Drain.{Drained, drain_stream-Ends, streams-emit_tracked}

-- No stream has more to send than before, and no datagram has gone.
abbrev pub Kept : Session → Session → Type 0
Kept s s' = Shrinks s.streams s'.streams × (s'.datagrams ≡ s.datagrams)

-- Every listed stream is there, with less than `fuel` bytes to send.
abbrev pub Short : ℕ → List ℕ → Session → Type 0
Short fuel order s =
    (k : ℕ) → mem k order ≡ true → (n : ℕ) × (unsent s.streams k ≡ some n) × (n < fuel)

abbrev pub AllSent : List ℕ → Session → Type 0
AllSent order s = (k : ℕ) → mem k order ≡ true → unsent s.streams k ≡ some 0

abbrev pub Sent : List ℕ → Session → Session → Type 0
Sent order s s' = AllSent order s' × Shrinks s.streams s'.streams × (s'.datagrams ≡ s.datagrams)

module _ (P : Primitives) (now : ℕ) where
  flush_fin-Ends :
      (sid n : ℕ) (s : Session)
      → unsent s.streams sid ≡ some n
      → Ends (Kept s) (flush_fin P now sid s)
  unfolding flush_fin
  flush_fin-Ends sid n s h = elim (Option-cases (lookup sid s.streams)) [
    | inl missing ↦ absurd (ground (arith, ap size_of missing))
    | inr (stream, found) ↦ elim (Bool-cases (Stream.should_send_fin stream)) [
      | inl due ↦ rw (found, flush_fin) (rw due (sent stream found))
      | inr not_due ↦ rw (found, flush_fin) (rw not_due (Shrinks-refl s.streams, refl))
    ]
  ]
    where
      sent :
          (stream : Stream)
          → lookup sid s.streams ≡ some stream
          → Ends (Kept s) (
              some (
                emit_tracked P now
                  (stream_frame sid stream.send_offset [] true)
                  (record s { streams = insert sid (Stream.mark_fin_flushed stream) s.streams })))
      sent stream found =
          let (same, kept) =
            streams-emit_tracked P now (stream_frame sid stream.send_offset [] true)
              (record s { streams = insert sid (Stream.mark_fin_flushed stream) s.streams }) in
          Ends-some (Kept s) _ (
            subst (Shrinks s.streams) (sym same) (
                Shrinks-insert sid n (Stream.mark_fin_flushed stream) s.streams h (
                  omega (
                    arith,
                    ap length (Send.mark_fin_flushed-buf stream),
                    injective _ n (length stream.send_buf) h (ap size_of found),
                  ))),
            kept,
          )

  stream-Ends :
      (fuel sid n : ℕ) (s : Session)
      → unsent s.streams sid ≡ some n
      → n < fuel
      → Ends
          (Drained P now sid s)
          (followed_by (drain_stream P now fuel sid s) (flush_fin P now sid))
  stream-Ends fuel sid n s h l =
      Ends-followed_by (Drained P now sid s) (Drained P now sid s) _ _
        (drain_stream-Ends P now fuel sid n s h l)
        (λ s' (none_, shrinks, kept).
          Ends-mono (Kept s') (Drained P now sid s) _
            (λ s'' (shrinks', kept'). (
              let (m, at, le) = shrinks' sid 0 none_ in at ∙ ap some (omega arith),
              Shrinks-trans s.streams s'.streams s''.streams shrinks shrinks',
              kept' ∙ kept,
            ))
            (flush_fin-Ends sid 0 s' none_))

  pub flush_streams-Ends :
      (fuel : ℕ) (order : List ℕ) (s : Session)
      → Short fuel order s
      → Ends (Sent order s) (flush_streams P now fuel order s)
  unfolding flush_streams
  flush_streams-Ends fuel [] s short =
      ((λ k e. absurd (ground arith)), Shrinks-refl s.streams, refl)
  flush_streams-Ends fuel (sid ∷ sids) s short =
      let (n, at, less) = short sid (ground arith) in
      Ends-followed_by (Drained P now sid s) (Sent (sid ∷ sids) s) _ _
        (stream-Ends fuel sid n s at less)
        (λ s' (none_, shrinks, kept).
          Ends-mono (Sent sids s') (Sent (sid ∷ sids) s) _
            (λ s'' (sent, shrinks', kept'). (
              (λ k e. elim (Bool-cases (sid == k)) [
                | inl here ↦
                    let (m, at', le) = shrinks' sid 0 none_ in
                    subst (λ j. unsent s''.streams j ≡ some 0) (ground arith)
                      (at' ∙ ap some (omega arith))
                | inr there ↦ sent k (ground arith)
              ]),
              Shrinks-trans s.streams s'.streams s''.streams shrinks shrinks',
              kept' ∙ kept,
            ))
            (flush_streams-Ends fuel sids s' (λ k e.
              let (m, at', less') = short k (ground arith) in
              let (m', at'', le) = shrinks k m at' in (m', at'', omega arith))))
