-- ===== src/Session/Stream/Reassembly.antt =====
-- The receive side of src/session/stream.rs against a sender's chunks: whatever arrives, in any order
-- and any number of times, what is read is a front part of the sender's bytes.
use mathlib.Core.List.{append-nil, append_assoc}
use seam.Prelude.{
  ℕ, suc, ◌+◌, ◌-◌, ◌≤◌, ◌<◌, min, List, [], ◌∷◌, ◌++◌, some, Bool, false, ◌≡◌, ◌⊎◌, inl, inr, refl,
  sym, ap, ◌∙◌, arith, length, take, drop, length-drop, drop-drop, take_add, ltb, leb, ◌==◌,
  Bool-cases,
}
use seam.Prelude.Bytes.{u64_mod}
use seam.Prelude.Words.{add64}
use seam.Prelude.Map.{Map, insert}
use seam.Session.Stream.{Stream, Bytes, Progress, receive, read, read_loop}
use seam.Session.Stream.Send.{concat, IsContiguous}
use seam.Session.Stream.Chunks.{Chunk, In, Placed, In-Placed, In-disjoint, Placed-take}

pub receive_step :
    (s : Stream) (o : ℕ) (d : Bytes) (fin : Bool)
    → let s' = (receive s o d fin).1 in
      (s'.recv_offset ≡ s.recv_offset)
      × ((s'.recv_buf ≡ s.recv_buf)
          ⊎ ((s'.recv_buf ≡ insert o d s.recv_buf) × (s.recv_offset < add64 o (length d))))
unfolding receive
receive_step s o d fin = ground arith

module _ (cs : List Chunk) (c : IsContiguous 0 cs) (w : length (concat cs) < u64_mod) where
  -- Segments in ascending order, each a chunk of the sender that ends no earlier than `offset`.
  abbrev pub Pending : ℕ → ℕ → Map Bytes → Type 0
  Pending lo offset [] = Unit
  Pending lo offset ((o, d) ∷ buf) =
      (lo ≤ o) × In (o, d) cs × (offset ≤ o + length d) × Pending (suc o) offset buf

  record Delivered (offset : ℕ) (out : Bytes) (room : ℕ) (p : Progress) : Type 0 where
    forward : offset ≤ p.offset
    inside : p.offset ≤ length (concat cs)
    bytes : p.out ≡ out ++ take (p.offset - offset) (drop offset (concat cs))
    rest : Pending 0 p.offset p.buf

  Pending-down : (lo offset : ℕ) (buf : Map Bytes) → Pending lo offset buf → Pending 0 offset buf
  Pending-down lo offset [] p = tt
  Pending-down lo offset ((o, d) ∷ buf) (le, i, e, p) = (omega arith, i, e, p)

  Pending-advance :
      (o : ℕ) (d : Bytes) (lo offset offset' : ℕ) (buf : Map Bytes)
      → In (o, d) cs
      → o < lo
      → offset' ≤ o + length d
      → Pending lo offset buf
      → Pending lo offset' buf
  Pending-advance o d lo offset offset' [] i l h p = tt
  Pending-advance o d lo offset offset' ((k, x) ∷ buf) i l h (le, j, e, p) = (
    le,
    j,
    omega (arith, In-disjoint 0 o k d x cs c i j (omega arith)),
    Pending-advance o d (suc k) offset offset' buf i (omega arith) h p,
  )

  Delivered-stop :
      (offset : ℕ) (out : Bytes) (room : ℕ) (buf : Map Bytes)
      → offset ≤ length (concat cs)
      → Pending 0 offset buf
      → Delivered offset out room (record { out = out; offset = offset; buf = buf })
  Delivered-stop offset out room buf h p = record {
    forward = omega arith;
    inside = h;
    bytes = sym (
        ap (λ n. out ++ take n (drop offset (concat cs))) {x = offset - offset} {y = 0}
          (omega arith)
        ∙ append-nil out);
    rest = p;
  }

  Delivered-round :
      (o : ℕ) (d : Bytes) (offset n : ℕ) (out : Bytes) (room : ℕ) (p : Progress)
      → In (o, d) cs
      → o ≤ offset
      → offset ≤ o + length d
      → n ≤ length d - (offset - o)
      → Delivered (offset + n) (out ++ take n (drop (offset - o) d)) (room - n) p
      → Delivered offset out room p
  Delivered-round o d offset n out room p i h e l q = record {
    forward = omega (arith, q.forward);
    inside = q.inside;
    bytes =
        q.bytes
        ∙ append_assoc out (take n (drop (offset - o) d)) _
        ∙ ap (◌++◌ out) (
            ap (λ x. x ++ take (p.offset - (offset + n)) (drop (offset + n) (concat cs)))
              (Placed-take o offset n d (concat cs) (In-Placed 0 o d cs c i) h e l)
            ∙ ap (λ x. take n (drop offset (concat cs)) ++ take (p.offset - (offset + n)) x)
                (sym (drop-drop n offset (concat cs)))
            ∙ sym (take_add n (p.offset - (offset + n)) (drop offset (concat cs)))
            ∙ ap (λ k. take k (drop offset (concat cs))) {y = p.offset - offset}
                (omega (arith, q.forward)));
    rest = q.rest;
  }

  read_loop-Delivered :
      (buf : Map Bytes) (lo offset : ℕ) (out : Bytes) (room : ℕ)
      → offset ≤ length (concat cs)
      → Pending lo offset buf
      → (p : Progress) × (read_loop buf offset out room ≡ some p) × Delivered offset out room p
  unfolding read_loop
  read_loop-Delivered [] lo offset out room h p = (_, refl, Delivered-stop offset out room [] h tt)
  read_loop-Delivered ((o, d) ∷ buf) lo offset out room h (le, i, e, p) =
      elim (Bool-cases (leb room 0)) [
        | inl full ↦ rw full (_, refl, Delivered-stop offset out room _ h (omega arith, i, e, p))
        | inr more ↦ elim (Bool-cases (ltb offset o)) [
          | inl gap ↦
              rw (more, gap) (_, refl, Delivered-stop offset out room _ h (omega arith, i, e, p))
          | inr ready ↦
              let n : ℕ = min (length (drop (offset - o) d)) room in
              let q : Placed 0 o d (concat cs) = In-Placed 0 o d cs c i in
              let no_wrap : add64 offset n ≡ offset + n =
                omega (arith, length-drop (offset - o) d, q.fits, w) in
              let safe : ltb (length d) (offset - o) ≡ false = ground arith in
              let short : n ≤ length d - (offset - o) = omega (arith, length-drop (offset - o) d) in
              let (x, runs, rest) =
                read_loop-Delivered buf (suc o) (offset + n) (out ++ take n (drop (offset - o) d))
                  (room - n) (omega (arith, q.fits))
                  (Pending-advance o d (suc o) offset (offset + n) buf i (omega arith) (omega arith)
                    p) in
              rw (more, ready, safe, no_wrap)
                (x, runs, Delivered-round o d offset n out room x i (ground arith) e short rest)
        ]
      ]

  Pending-eq :
      (lo lo' offset : ℕ) (buf : Map Bytes)
      → lo ≡ lo'
      → Pending lo offset buf
      → Pending lo' offset buf
  Pending-eq lo lo' offset buf e p = rw (← e) p

  Pending-insert :
      (lo offset o : ℕ) (d : Bytes) (buf : Map Bytes)
      → lo ≤ o
      → In (o, d) cs
      → offset ≤ o + length d
      → Pending lo offset buf
      → Pending lo offset (insert o d buf)
  Pending-insert lo offset o d [] h i e p = (h, i, e, tt)
  Pending-insert lo offset o d ((k, x) ∷ buf) h i e (le, j, f, p) = elim (Bool-cases (ltb o k)) [
    | inl before ↦ rw before (h, i, e, (ground arith, j, f, p))
    | inr after ↦ elim (Bool-cases (k == o)) [
      | inl same ↦
          let eq : k ≡ o = ground arith in
          rw (after, same) (h, i, e, Pending-eq (suc k) (suc o) offset buf (ap suc eq) p)
      | inr past ↦
          rw (after, past) (le, j, f, Pending-insert (suc k) offset o d buf (ground arith) i e p)
    ]
  ]

  -- The stream has delivered a front part of the sender's bytes.
  pub record IsSound (s : Stream) : Type 0 where
    pub inside : s.recv_offset ≤ length (concat cs)
    pub pending : Pending 0 s.recv_offset s.recv_buf

  pub receive-IsSound :
      (s : Stream) (o : ℕ) (d : Bytes) (fin : Bool)
      → In (o, d) cs
      → IsSound s
      → IsSound (receive s o d fin).1
  receive-IsSound s o d fin i v =
      let (same, changed) = receive_step s o d fin in
      elim changed [
        | inl kept ↦ record {
          inside = omega (arith, v.inside);
          pending = rw (same, kept) v.pending;
        }
        | inr (stored, ahead) ↦ record {
          inside = omega (arith, v.inside);
          pending =
              rw (same, stored)
                (Pending-insert 0 s.recv_offset o d s.recv_buf (omega arith) i
                  (omega (arith, (In-Placed 0 o d cs c i).fits, w)) v.pending);
        }
      ]

  -- What a `read` does to a sound stream.
  pub record Reads (s : Stream) (m : ℕ) (out : Bytes) (s' : Stream) : Type 0 where
    pub runs : read s m ≡ some (out, s')
    pub sound : IsSound s'
    pub forward : s.recv_offset ≤ s'.recv_offset
    pub bytes : out ≡ take (s'.recv_offset - s.recv_offset) (drop s.recv_offset (concat cs))

  pub read-IsSound :
      (s : Stream) (m : ℕ) → IsSound s → (out : Bytes) × (s' : Stream) × Reads s m out s'
  unfolding read
  read-IsSound s m v =
      let (p, runs, d) = read_loop-Delivered s.recv_buf 0 s.recv_offset [] m v.inside v.pending in
      (
        p.out,
        record s { recv_offset = p.offset; recv_buf = p.buf },
        record {
          runs = rw (runs, read);
          sound = record { inside = d.inside; pending = d.rest };
          forward = d.forward;
          bytes = d.bytes;
        },
      )
