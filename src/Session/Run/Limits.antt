-- ===== src/Session/Run/Limits.antt =====
-- In src/session/mod.rs, the streams of every reachable session.
use mathlib.Core.Path.{subst}
use seam.Prelude.{
  ℕ, ◌+◌, ◌%◌, ◌≤◌, ◌<◌, List, Option, none, some, Bool, false, ◌≡◌, refl, sym, ap, ◌∙◌, arith, leb,
  Option-cases, Bool-cases, inl, inr, length,
}
use seam.Prelude.Map.{lookup, insert}
use seam.Error.{Result}
use seam.Session.Flow.{reserve}
use seam.Session.Stream
use seam.Session.Stream.{Stream}
use seam.Crypto.Encoder.{PacketEncoder}
use seam.Crypto.Decoder.{PacketDecoder}
use seam.Session.State.{
  Role, SessionLimits, with_limits, Session, local_parity, is_full, try_open_stream_with_priority,
  send, finish_stream, read,
}
use seam.Session.State.Credits.{Result-cases, send_blocked, send_unknown, send_refused, send_taken}
use seam.Session.Frames.{refusal, note_consumed, deliver, handle_data_frame}
use seam.Session.Frames.Chunk.{
  data_len, stream_id, handle_cut, handle_refused, handle_taken, deliver-delivered, refusal-none,
}
use seam.Session.Run.{Step, opened, sent, finished, received, was_read, Reach, start, later}
use seam.Session.Run.Bounded.{
  IsBounded, []-IsBounded, lookup-next, replace-IsBounded, remote-IsBounded, open-IsBounded,
}

abbrev pub Bounded : Session → Type 0
Bounded s = IsBounded s.role s.limits.max_streams s.next_stream_id s.streams

-- A stream that is there, changed.
module _ (s : Session) (b : Bounded s) where
  abbrev Kept : Session → Type 0
  Kept s' = Bounded s' × (s'.role ≡ s.role) × (s'.limits ≡ s.limits)

  same : Kept s
  same = (b, refl, refl)

  replaced :
      (k : ℕ) (v w : Stream)
      → lookup k s.streams ≡ some w
      → IsBounded s.role s.limits.max_streams s.next_stream_id (insert k v s.streams)
  replaced = replace-IsBounded s.role s.limits.max_streams s.next_stream_id s.streams b

  send-Kept : (k : ℕ) (data' : List ℕ) → Kept (send s k data').1
  send-Kept k data' = elim (Result-cases (reserve s.send_window (length data')).0) [
    | inl (e, h) ↦ rw (send_blocked s k data' e h) same
    | inr (u, h) ↦ elim (Option-cases (lookup k s.streams)) [
      | inl none_ ↦ rw (send_unknown s k data' h none_) same
      | inr (stream, found) ↦ elim (Result-cases (Stream.write stream data').0) [
        | inl (e, w) ↦
            rw (send_refused s k data' stream e h found w) (replaced k _ stream found, refl, refl)
        | inr (n, w) ↦
            rw (send_taken s k data' stream n h found w) (replaced k _ stream found, refl, refl)
      ]
    ]
  ]

  finish_stream-Kept : (k : ℕ) → Kept (finish_stream s k)
  unfolding finish_stream
  finish_stream-Kept k = elim (Option-cases (lookup k s.streams)) [
    | inl none_ ↦ rw (none_, finish_stream) same
    | inr (stream, found) ↦ rw (found, finish_stream) (replaced k _ stream found, refl, refl)
  ]

  abbrev AllKept : Option (Result (List ℕ) × Session) → Type 0
  AllKept none = Unit
  AllKept (some (r, s')) = Kept s'

  read-AllKept : (k n : ℕ) → AllKept (read s k n)
  unfolding read
  read-AllKept k n = elim (Option-cases (lookup k s.streams)) [
    | inl missing ↦ rw (missing, read) same
    | inr (stream, found) ↦ elim (Option-cases (Stream.read stream n)) [
      | inl h ↦ rw (found, read) (rw h tt)
      | inr ((out, stream'), h) ↦
          rw (found, read) (rw h (replaced k stream' stream found, refl, refl))
    ]
  ]

  not_full :
      s.limits.max_streams < 2_147_483_647
      → is_full s ≡ false
      → length s.streams < s.limits.max_streams
  unfolding is_full
  not_full small h = ground (arith, b.few)

  try_open-Kept :
      (priority : ℕ)
      → s.limits.max_streams < 2_147_483_647
      → Kept (try_open_stream_with_priority s priority).1
  unfolding try_open_stream_with_priority
  try_open-Kept priority small = elim (Bool-cases (is_full s)) [
    | inl h ↦ rw (h, try_open_stream_with_priority) same
    | inr h ↦
        rw (h, try_open_stream_with_priority)
          (
            open-IsBounded s.role s.limits.max_streams s.next_stream_id s.streams b _
                (not_full small h) small,
            refl,
            refl,
          )
  ]

  deliver-Kept :
      (sid offset : ℕ) (data' : List ℕ) (is_fin : Bool)
      → s.limits.max_streams < 2_147_483_647
      → refusal s sid ≡ none
      → Kept (deliver s sid offset data' is_fin).1
  unfolding note_consumed
  deliver-Kept sid offset data' is_fin small h =
      rw (deliver-delivered s sid offset data' is_fin) (elim (refusal-none s sid h) [
        | inl (stream, found) ↦ (replaced sid _ stream found, refl, refl)
        | inr (missing, parity, room) ↦ (
          remote-IsBounded s.role s.limits.max_streams s.next_stream_id s.streams b sid _ missing
              (not_full small room) parity,
          refl,
          refl,
        )
      ])

  handle_data_frame-Kept :
      (frame : List ℕ) → s.limits.max_streams < 2_147_483_647 → Kept (handle_data_frame s frame).1
  handle_data_frame-Kept frame small =
      elim (Bool-cases (leb (16 + data_len s frame) (length frame))) [
        | inr h ↦ rw (handle_cut s frame (ground arith)) same
        | inl h ↦ elim (Option-cases (refusal s (stream_id s frame))) [
          | inr (e, r) ↦ rw (handle_refused s frame e (ground arith) r) same
          | inl r ↦ rw (handle_taken s frame (ground arith) r) (deliver-Kept _ _ _ _ small r)
        ]
      ]

  Step-Kept : (s' : Session) → s.limits.max_streams < 2_147_483_647 → Step s s' → Kept s'
  Step-Kept s' small (opened priority h) = subst Kept h (try_open-Kept priority small)
  Step-Kept s' small (sent k data' h) = subst Kept h (send-Kept k data')
  Step-Kept s' small (finished k h) = subst Kept h (finish_stream-Kept k)
  Step-Kept s' small (received frame h) = subst Kept h (handle_data_frame-Kept frame small)
  Step-Kept s' small (was_read k n r h) = subst AllKept h (read-AllKept k n)

-- In a session that is reached from a new one with a limit below 2^31 - 1, by opening, sending,
-- finishing, receiving data frames and reading, there are at most `max_streams` streams, and the
-- identifier of the next one has the session's own parity and is no stream's.
pub Reach-limits :
    (id : ℕ) (role : Role) (e : PacketEncoder) (d : PacketDecoder) (limits : SessionLimits)
    (s : Session)
    → limits.max_streams < 2_147_483_647
    → Reach (with_limits id role e d limits) s
    → (length s.streams ≤ limits.max_streams)
      × (s.next_stream_id % 2 ≡ local_parity role)
      × (lookup s.next_stream_id s.streams ≡ none)
unfolding with_limits
Reach-limits id role e d limits s small r =
    let (b, role_, limits_) = Reach-Kept r in
    (
      subst (λ l. length s.streams ≤ l.max_streams) limits_ b.few,
      b.parity ∙ ap local_parity role_,
      lookup-next s.role s.limits.max_streams s.next_stream_id s.streams b,
    )
  where
    first : Session
    first = with_limits id role e d limits

    Reach-Kept : {s : Session} → Reach first s → Bounded s × (s.role ≡ role) × (s.limits ≡ limits)
    Reach-Kept start = ([]-IsBounded role limits.max_streams, refl, refl)
    Reach-Kept (later {s} {s'} r step) =
        let (b, role_, limits_) = Reach-Kept r in
        let small' : s.limits.max_streams < 2_147_483_647 =
          subst (λ l. l.max_streams < 2_147_483_647) (sym limits_) small in
        let (b', role', limits') = Step-Kept s b s' small' step in
        (b', role' ∙ role_, limits' ∙ limits_)
