-- ===== src/Session/Stream/Send.antt =====
-- The send side of src/session/stream.rs: what is polled is what was written, in order.
use mathlib.Core.List.{append_assoc, append-nil}
use seam.Prelude.{
  ℕ, ◌+◌, ◌-◌, ◌≤◌, ◌<◌, min, List, [], ◌∷◌, ◌++◌, Option, none, some, true, ◌≡◌, refl, sym, ap,
  ◌∙◌, arith, length, length-append, length-drop, take-append-drop,
}
use seam.Prelude.Bytes.{u64_max}
use seam.Error.{Result, ok, err, stream_finished}
use seam.Session.Stream.{
  Stream, Bytes, write, finish, poll_send, extend_send_window, mark_fin_flushed, on_ack,
}

-- The bytes that a write took.
abbrev taken : Result ℕ → Bytes → Bytes
taken (ok _) d = d
taken (err e) d = []

abbrev chunk_bytes : Option (ℕ × Bytes) → Bytes
chunk_bytes none = []
chunk_bytes (some (o, d)) = d

write_step :
    (s : Stream) (d : Bytes)
    → s.send_max_data < u64_max
    → let (answer, s') = write s d in
      (s'.send_buf ≡ s.send_buf ++ taken answer d)
      × (s'.send_offset ≡ s.send_offset + length (taken answer d))
      × (s'.send_max_data ≡ s.send_max_data)
unfolding write
write_step s d h = ground (arith, append-nil s.send_buf)

poll_some :
    (s : Stream) (m : ℕ) {o : ℕ} {d : Bytes}
    → (poll_send s m).0 ≡ some (o, d)
    → o ≡ s.send_offset - length s.send_buf
unfolding poll_send
poll_some s m h = ground arith

poll_step :
    (s : Stream) (m : ℕ)
    → let (chunk, s') = poll_send s m in
      (s.send_buf ≡ chunk_bytes chunk ++ s'.send_buf)
      × (s'.send_offset ≡ s.send_offset)
      × (s'.send_max_data ≡ s.send_max_data)
unfolding poll_send
poll_step s m = ground (arith, take-append-drop (min (length s.send_buf) m) s.send_buf)

-- The calls that touch the send side.
pub data SendCall : Type 0 where
  writes : Bytes → SendCall
  polls : ℕ → SendCall
  extends : ℕ → SendCall
  acks : ℕ → SendCall
  finishes flushes : SendCall

-- The stream afterwards, the bytes that the writes took, and the chunks that the polls gave.
pub record Sent : Type 0 where
  pub stream : Stream
  pub written : Bytes
  pub chunks : List (ℕ × Bytes)

cons_chunk : Option (ℕ × Bytes) → List (ℕ × Bytes) → List (ℕ × Bytes)
cons_chunk none cs = cs
cons_chunk (some c) cs = c ∷ cs

unfoldable pub run : Stream → List SendCall → Sent
unfolding cons_chunk
run s [] = record { stream = s; written = []; chunks = [] }
run s (writes d ∷ calls) =
    let (answer, s') = write s d in
    let r = run s' calls in record r { written = taken answer d ++ r.written }
run s (polls m ∷ calls) =
    let (chunk, s') = poll_send s m in
    let r = run s' calls in record r { chunks = cons_chunk chunk r.chunks }
run s (extends n ∷ calls) = run (extend_send_window s n) calls
run s (acks n ∷ calls) = run (on_ack s n) calls
run s (finishes ∷ calls) = run (finish s) calls
run s (flushes ∷ calls) = run (mark_fin_flushed s) calls

-- Announced windows stay below the greatest u64.
abbrev pub IsBounded : List SendCall → Type 0
IsBounded [] = Unit
IsBounded (extends n ∷ calls) = (n < u64_max) × IsBounded calls
IsBounded (call ∷ calls) = IsBounded calls

abbrev pub concat : List (ℕ × Bytes) → Bytes
concat [] = []
concat ((o, d) ∷ cs) = d ++ concat cs

-- Each chunk starts where the one before it ended.
abbrev pub IsContiguous : ℕ → List (ℕ × Bytes) → Type 0
IsContiguous n [] = Unit
IsContiguous n ((o, d) ∷ cs) = (o ≡ n) × IsContiguous (n + length d) cs

pub record InOrder (s : Stream) (r : Sent) : Type 0 where
  pub bytes : s.send_buf ++ r.written ≡ concat r.chunks ++ r.stream.send_buf
  pub offsets : IsContiguous (s.send_offset - length s.send_buf) r.chunks
  pub total : r.stream.send_offset ≡ s.send_offset + length r.written

IsContiguous-eq : (n m : ℕ) (cs : List (ℕ × Bytes)) → n ≡ m → IsContiguous n cs → IsContiguous m cs
IsContiguous-eq n m cs e c = rw (← e) c

InOrder-write :
    (s s' : Stream) (d : Bytes) (r : Sent)
    → length s.send_buf ≤ s.send_offset
    → s'.send_buf ≡ s.send_buf ++ d
    → s'.send_offset ≡ s.send_offset + length d
    → InOrder s' r
    → InOrder s (record r { written = d ++ r.written })
InOrder-write s s' d r h b o i = record {
  bytes = sym (append_assoc s.send_buf d r.written) ∙ ap (λ x. x ++ r.written) (sym b) ∙ i.bytes;
  offsets =
      IsContiguous-eq (s'.send_offset - length s'.send_buf) (s.send_offset - length s.send_buf)
        r.chunks (omega (arith, ap length b, length-append s.send_buf d)) i.offsets;
  total = omega (arith, i.total, length-append d r.written);
}

InOrder-poll :
    (s s' : Stream) (chunk : Option (ℕ × Bytes)) (r : Sent)
    → length s.send_buf ≤ s.send_offset
    → s.send_buf ≡ chunk_bytes chunk ++ s'.send_buf
    → s'.send_offset ≡ s.send_offset
    → ((o : ℕ) (d : Bytes) → chunk ≡ some (o, d) → o ≡ s.send_offset - length s.send_buf)
    → InOrder s' r
    → InOrder s (record r { chunks = cons_chunk chunk r.chunks })
unfolding cons_chunk
InOrder-poll s s' none r h b o p i = record {
  bytes = ap (λ x. x ++ r.written) b ∙ i.bytes;
  offsets =
      IsContiguous-eq (s'.send_offset - length s'.send_buf) (s.send_offset - length s.send_buf)
        r.chunks (omega (arith, ap length b)) i.offsets;
  total = omega (arith, i.total);
}
InOrder-poll s s' (some (o', d)) r h b o p i = record {
  bytes =
      ap (λ x. x ++ r.written) b
      ∙ append_assoc d s'.send_buf r.written
      ∙ ap (◌++◌ d) i.bytes
      ∙ sym (append_assoc d (concat r.chunks) r.stream.send_buf);
  offsets = (
    p o' d refl,
    IsContiguous-eq (s'.send_offset - length s'.send_buf)
        (s.send_offset - length s.send_buf + length d) r.chunks
        (omega (arith, ap length b, length-append d s'.send_buf)) i.offsets,
  );
  total = omega (arith, i.total);
}

-- An operation that leaves the buffer and the offset alone.
InOrder-same :
    (s s' : Stream) (r : Sent)
    → s'.send_buf ≡ s.send_buf
    → s'.send_offset ≡ s.send_offset
    → InOrder s' r
    → InOrder s r
InOrder-same s s' r b o i = record {
  bytes = ap (λ x. x ++ r.written) (sym b) ∙ i.bytes;
  offsets =
      IsContiguous-eq (s'.send_offset - length s'.send_buf) (s.send_offset - length s.send_buf)
        r.chunks (omega (arith, ap length b)) i.offsets;
  total = omega (arith, i.total);
}

extend_step :
    (s : Stream) (n : ℕ)
    → let s' = extend_send_window s n in
      (s'.send_buf ≡ s.send_buf)
      × (s'.send_offset ≡ s.send_offset)
      × (s.send_max_data < u64_max → n < u64_max → s'.send_max_data < u64_max)
unfolding extend_send_window
extend_step s n = ground arith

on_ack_step :
    (s : Stream) (n : ℕ)
    → let s' = on_ack s n in
      (s'.send_buf ≡ s.send_buf)
      × (s'.send_offset ≡ s.send_offset)
      × (s'.send_max_data ≡ s.send_max_data)
unfolding on_ack
on_ack_step s n = ground arith

-- From a stream whose buffer is no longer than `send_offset`, with send windows below the greatest u64:
-- under any calls on the send side, the chunks that the polls return make up, end to end, the bytes
-- buffered at the start followed by those that the writes took; what is missing at the end is still
-- buffered. Each chunk carries the offset of its first byte, and `send_offset` counts what was taken.
pub run-InOrder :
    (s : Stream) (calls : List SendCall)
    → s.send_max_data < u64_max
    → length s.send_buf ≤ s.send_offset
    → IsBounded calls
    → InOrder s (run s calls)
unfolding run
run-InOrder s [] w h l = record { bytes = append-nil s.send_buf; offsets = tt; total = omega arith }
run-InOrder s (writes d ∷ calls) w h l =
    let (b, o, m) = write_step s d w in
    InOrder-write s (write s d).1 (taken (write s d).0 d) (run (write s d).1 calls) h b o (
      run-InOrder (write s d).1 calls (omega arith)
        (omega (arith, ap length b, length-append s.send_buf (taken (write s d).0 d))) l)
run-InOrder s (polls n ∷ calls) w h l =
    let (b, o, m) = poll_step s n in
    InOrder-poll s (poll_send s n).1 (poll_send s n).0 (run (poll_send s n).1 calls) h b o
      (λ o d e. poll_some s n e)
      (run-InOrder (poll_send s n).1 calls (omega arith)
        (omega (
          arith,
          ap length b,
          length-append (chunk_bytes (poll_send s n).0) (poll_send s n).1.send_buf,
        ))
        l)
run-InOrder s (extends n ∷ calls) w h l =
    let (b, o, m) = extend_step s n in
    InOrder-same s (extend_send_window s n) _ b o
      (run-InOrder (extend_send_window s n) calls (m w l.0) (omega (arith, ap length b)) l.1)
run-InOrder s (acks n ∷ calls) w h l =
    let (b, o, m) = on_ack_step s n in
    InOrder-same s (on_ack s n) _ b o
      (run-InOrder (on_ack s n) calls (omega arith) (omega (arith, ap length b)) l)
run-InOrder s (finishes ∷ calls) w h l =
    InOrder-same s (finish s) _ (unfold finish in refl) (unfold finish in refl)
      (run-InOrder (finish s) calls (unfold finish in w) (unfold finish in h) l)
run-InOrder s (flushes ∷ calls) w h l =
    InOrder-same s (mark_fin_flushed s) _ (unfold mark_fin_flushed in refl)
      (unfold mark_fin_flushed in refl)
      (run-InOrder (mark_fin_flushed s) calls (unfold mark_fin_flushed in w)
        (unfold mark_fin_flushed in h) l)

-- Polling an empty buffer changes nothing; otherwise there is a chunk, and less remains.
pub poll_nothing : (s : Stream) (m : ℕ) → s.send_buf ≡ [] → poll_send s m ≡ (none, s)
unfolding poll_send
poll_nothing s m h = rw (h, poll_send) refl

pub poll_chunk :
    (s : Stream) (m b : ℕ) (bs : Bytes)
    → 1 ≤ m
    → s.send_buf ≡ b ∷ bs
    → (chunk : ℕ × Bytes) × ((poll_send s m).0 ≡ some chunk)
      × (length (poll_send s m).1.send_buf < length s.send_buf)
unfolding poll_send
poll_chunk s m b bs h e =
    rw (e, poll_send)
      (_, refl, omega (arith, length-drop (min (length (b ∷ bs)) m) (b ∷ bs), ap length e))

pub mark_fin_flushed-buf : (s : Stream) → (mark_fin_flushed s).send_buf ≡ s.send_buf
unfolding mark_fin_flushed
mark_fin_flushed-buf s = refl

pub write_finished :
    (s : Stream) (d : Bytes) → s.fin_sent ≡ true → write s d ≡ (err (stream_finished s.id), s)
unfolding write
write_finished s d h = rw (h, write) refl
