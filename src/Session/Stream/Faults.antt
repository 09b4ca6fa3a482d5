-- ===== src/Session/Stream/Faults.antt =====
-- Two faults of `read` in src/session/stream.rs: a segment that lies inside one already read makes it
-- panic, and the end of a segment that does not fit the reader's room is thrown away.
use seam.Prelude.{
  ℕ, ◌+◌, ◌≤◌, ◌<◌, [], ◌∷◌, Option, none, some, false, ◌≡◌, ◌≢◌, refl, ap, ◌∙◌, arith, length,
  take,
}
use seam.Prelude.Bytes.{u64_mod}
use seam.Prelude.Map.{Map, insert}
use seam.Session.Stream.{Stream, Bytes, Progress, new, receive, read, read_loop, default_window}

receive_fresh :
    (s : Stream) (o : ℕ) (d : Bytes)
    → d ≢ []
    → s.recv_offset < o + length d
    → o + length d ≤ s.recv_max_data
    → s.recv_max_data < u64_mod
    → let s' = (receive s o d false).1 in
      (s'.recv_buf ≡ insert o d s.recv_buf)
      × (s'.recv_offset ≡ s.recv_offset)
      × (s'.recv_max_data ≡ s.recv_max_data)
unfolding receive
receive_fresh s o [] ne h k w = absurd (ne refl)
receive_fresh s o (b ∷ d) ne h k w = ground arith

loop-contained :
    (o m : ℕ) (d d' : Bytes)
    → o + length d' < length d
    → length d < u64_mod
    → length d < m
    → read_loop ((0, d) ∷ (o, d') ∷ []) 0 [] m ≡ none
unfolding read_loop
loop-contained o m d d' h w r = ground arith

loop_short :
    (m : ℕ) (d : Bytes)
    → 0 < m
    → m < length d
    → length d < u64_mod
    → read_loop ((0, d) ∷ []) 0 [] m ≡ some (record { out = take m d; offset = m; buf = [] })
unfolding read_loop
loop_short m d p h w = ground arith

loop_at :
    (s : Stream) (m : ℕ) {buf : Map Bytes} {r : Option Progress}
    → s.recv_buf ≡ buf
    → s.recv_offset ≡ 0
    → read_loop buf 0 [] m ≡ r
    → read_loop s.recv_buf s.recv_offset [] m ≡ r
loop_at s m b o e = (λ i. read_loop (b i) (o i) [] m) ∙ e

read-none : (s : Stream) (m : ℕ) → read_loop s.recv_buf s.recv_offset [] m ≡ none → read s m ≡ none
unfolding read
read-none s m e = rw (e, read)

read-some :
    (s : Stream) (m : ℕ) (p : Progress)
    → read_loop s.recv_buf s.recv_offset [] m ≡ some p
    → read s m ≡ some (p.out, record s { recv_offset = p.offset; recv_buf = p.buf })
unfolding read
read-some s m p e = rw (e, read)

nonempty : (d : Bytes) → 0 < length d → d ≢ []
nonempty [] h e = omega arith
nonempty (b ∷ d) h e = cc

-- On a fresh stream, a chunk `d` at 0, no longer than the window, and a second, not empty, that starts
-- after it and ends before its end: any read with room for more than the first panics.
pub read-contained :
    (id o m : ℕ) (d d' : Bytes)
    → 0 < o
    → 0 < length d'
    → o + length d' < length d
    → length d ≤ default_window
    → length d < m
    → read (receive (receive (new id) 0 d false).1 o d' false).1 m ≡ none
unfolding new
read-contained id o m d d' p q h k r =
    let (b, off, max) =
      receive_fresh (new id) 0 d (nonempty d (omega arith)) (omega arith) (omega arith)
        (omega arith) in
    let s' : Stream = (receive (new id) 0 d false).1 in
    let (b', off', max') =
      receive_fresh s' o d' (nonempty d' q) (omega arith) (omega arith) (omega arith) in
    let two : insert o d' (insert 0 d []) ≡ (0, d) ∷ (o, d') ∷ [] = ground arith in
    read-none (receive s' o d' false).1 m (
      loop_at (receive s' o d' false).1 m (b' ∙ ap (insert o d') b ∙ two) (off' ∙ off)
        (loop-contained o m d d' h (omega arith) r))

-- On a fresh stream, after one chunk at 0 that fits the window, a read with room for some of it but not
-- all returns what fits, and a read after that, of any size, returns nothing of the rest.
pub read_short :
    (id m m' : ℕ) (d : Bytes)
    → 0 < m
    → m < length d
    → length d ≤ default_window
    → (s' : Stream) × (read (receive (new id) 0 d false).1 m ≡ some (take m d, s'))
      × (read s' m' ≡ some ([], s'))
unfolding new read read_loop
read_short id m m' d p h k =
    let (b, off, max) =
      receive_fresh (new id) 0 d (nonempty d (omega arith)) (omega arith) (omega arith)
        (omega arith) in
    (
      record ((receive (new id) 0 d false).1) { recv_offset = m; recv_buf = [] },
      read-some (receive (new id) 0 d false).1 m _
          (loop_at (receive (new id) 0 d false).1 m b off (loop_short m d p h (omega arith))),
      refl,
    )
