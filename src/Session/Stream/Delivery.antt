-- ===== src/Session/Stream/Delivery.antt =====
-- From the send side to the receive side of src/session/stream.rs, over a network that delays,
-- reorders, repeats and loses.
use seam.Prelude.{
  ℕ, ◌+◌, ◌-◌, ◌≤◌, ◌<◌, List, [], ◌∷◌, ◌++◌, Option, none, some, Bool, ◌≡◌, refl, sym, ap, ◌∙◌,
  arith, length, take, drop, length-append, drop-drop, take_add, take-append_le,
}
use seam.Prelude.Bytes.{u64_mod}
use seam.Session.Stream.{Stream, Bytes, new, receive, read}
use seam.Session.Stream.Send
use seam.Session.Stream.Send.{SendCall, IsBounded, IsContiguous, concat, InOrder, run-InOrder}
use seam.Session.Stream.Chunks.{Chunk, In}
use seam.Session.Stream.Reassembly.{IsSound, Reads, receive_step, receive-IsSound, read-IsSound}

-- What happens at the receiver: a segment arrives, or the application reads.
pub data Event : Type 0 where
  arrives : ℕ → Bytes → Bool → Event
  reads : ℕ → Event

prepend : Bytes → Option (Bytes × Stream) → Option (Bytes × Stream)
prepend out none = none
prepend out (some (more, s)) = some (out ++ more, s)

-- All that the reads return, and the stream at the end; `none` when a read panics.
unfoldable pub run : Stream → List Event → Option (Bytes × Stream)
unfolding prepend
run s [] = some ([], s)
run s (arrives o d fin ∷ events) = run (receive s o d fin).1 events
run s (reads m ∷ events) = elim (read s m) [
  | none ↦ none
  | some (out, s') ↦ prepend out (run s' events)
]

-- Only chunks of the sender arrive.
abbrev pub FromSender : List Chunk → List Event → Type 0
FromSender cs [] = Unit
FromSender cs (arrives o d fin ∷ events) = In (o, d) cs × FromSender cs events
FromSender cs (reads m ∷ events) = FromSender cs events

take-drop_add :
    (k a b : ℕ) (xs : Bytes)
    → take a (drop k xs) ++ take b (drop (k + a) xs) ≡ take (a + b) (drop k xs)
take-drop_add k a b xs =
    ap (λ x. take a (drop k xs) ++ take b x) (sym (drop-drop a k xs))
    ∙ sym (take_add a b (drop k xs))

module _ (cs : List Chunk) (c : IsContiguous 0 cs) (w : length (concat cs) < u64_mod) where
  record Ends (s : Stream) (events : List Event) (out : Bytes) (s' : Stream) : Type 0 where
    runs : run s events ≡ some (out, s')
    forward : s.recv_offset ≤ s'.recv_offset
    inside : s'.recv_offset ≤ length (concat cs)
    bytes : out ≡ take (s'.recv_offset - s.recv_offset) (drop s.recv_offset (concat cs))

  Ends-reads :
      (s s' s'' : Stream) (m : ℕ) (out more : Bytes) (events : List Event)
      → Reads cs c w s m out s'
      → Ends s' events more s''
      → Ends s (reads m ∷ events) (out ++ more) s''
  unfolding run
  Ends-reads s s' s'' m out more events r e = record {
    runs = rw (r.runs, run) (rw (e.runs) refl);
    forward = omega (arith, r.forward, e.forward);
    inside = e.inside;
    bytes =
        ap (λ x. x ++ more) r.bytes
        ∙ ap (◌++◌ (take (s'.recv_offset - s.recv_offset) (drop s.recv_offset (concat cs)))) (
            e.bytes
            ∙ ap (λ n. take (s''.recv_offset - s'.recv_offset) (drop n (concat cs)))
                {y = s.recv_offset + (s'.recv_offset - s.recv_offset)} (omega (arith, r.forward)))
        ∙ take-drop_add s.recv_offset (s'.recv_offset - s.recv_offset)
            (s''.recv_offset - s'.recv_offset) (concat cs)
        ∙ ap (λ n. take n (drop s.recv_offset (concat cs))) {y = s''.recv_offset - s.recv_offset}
            (omega (arith, r.forward, e.forward));
  }

  run-Ends :
      (s : Stream) (events : List Event)
      → IsSound cs c w s
      → FromSender cs events
      → (out : Bytes) × (s' : Stream) × Ends s events out s'
  unfolding run
  run-Ends s [] v f = (
    [],
    s,
    record {
      runs = refl;
      forward = omega arith;
      inside = v.inside;
      bytes =
          ap (λ k. take k (drop s.recv_offset (concat cs))) {x = 0}
            {y = s.recv_offset - s.recv_offset} (omega arith);
    },
  )
  run-Ends s (arrives o d fin ∷ events) v (i, f) =
      let same = (receive_step s o d fin).0 in
      let (out, s', e) =
        run-Ends (receive s o d fin).1 events (receive-IsSound cs c w s o d fin i v) f in
      (
        out,
        s',
        record {
          runs = e.runs;
          forward = omega (arith, e.forward);
          inside = e.inside;
          bytes = e.bytes ∙ ap (λ n. take (s'.recv_offset - n) (drop n (concat cs))) same;
        },
      )
  run-Ends s (reads m ∷ events) v f =
      let (out, s', r) = read-IsSound cs c w s m v in
      let (more, s'', e) = run-Ends s' events r.sound f in
      (out ++ more, s'', Ends-reads s s' s'' m out more events r e)

  new-IsSound : (id : ℕ) → IsSound cs c w (new id)
  unfolding new
  new-IsSound id = record { inside = omega arith; pending = tt }

-- A sender and a receiver, each fresh; the send windows announced to the sender, and the number of
-- bytes it writes in all, fit 64 bits. Whatever the sender does, and whatever of its chunks arrive at
-- the receiver, in any order, repeated or not at all, with reads of any size in between: no read
-- panics, and the bytes read are exactly the first `recv_offset` bytes that the sender wrote.
pub run-delivers :
    (id id' : ℕ) (calls : List SendCall) (events : List Event)
    → IsBounded calls
    → length (Send.run (new id) calls).written < u64_mod
    → FromSender (Send.run (new id) calls).chunks events
    → (out : Bytes) × (s' : Stream) × (run (new id') events ≡ some (out, s'))
      × (out ≡ take s'.recv_offset (Send.run (new id) calls).written)
      × (s'.recv_offset ≤ length (Send.run (new id) calls).written)
unfolding new
run-delivers id id' calls events b w f =
    let (out, s', e) =
      run-Ends cs order.offsets short (new id') events (new-IsSound cs order.offsets short id') f in
    (
      out,
      s',
      e.runs,
      e.bytes
          ∙ sym (take-append_le (s'.recv_offset - 0) (concat cs) buf (omega (arith, e.inside)))
          ∙ ap (take (s'.recv_offset - 0)) (sym order.bytes)
          ∙ ap (λ n. take n (Send.run (new id) calls).written) {y = s'.recv_offset} (omega arith),
      omega (arith, e.inside, ap length order.bytes, length-append (concat cs) buf),
    )
  where
    cs : List Chunk
    cs = (Send.run (new id) calls).chunks

    buf : Bytes
    buf = (Send.run (new id) calls).stream.send_buf

    order : InOrder (new id) (Send.run (new id) calls)
    order = run-InOrder (new id) calls (omega arith) (omega arith) b

    short : length (concat cs) < u64_mod
    short = omega (arith, w, ap length order.bytes, length-append (concat cs) buf)
