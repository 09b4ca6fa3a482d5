-- ===== src/Transport/Probe/Steps.antt =====
-- One probe of src/transport/probe.rs and what becomes of it.
use mathlib.Core.List.{append_assoc}
use seam.Prelude.{
  ℕ, ◌+◌, ◌≤◌, ◌<◌, max, List, [], ◌∷◌, ◌++◌, some, false, ◌≡◌, ap, ◌∙◌, arith, ltb, length, take,
  drop, replicate, length-replicate, length-append, length-take, length-drop,
}
use seam.Prelude.Bytes.{u64_mod, to_le, from_le, slice, length-to_le, from_le-to_le}
use seam.Prelude.Splice.{write_at, take-front}
use seam.Prelude.Map.{Map, lookup, insert, remove}
use seam.Prelude.Words.{add64}
use seam.Transport.Probe.{
  PathProber, PendingProbe, next_size, probe_payload, build_probe, note_reached, on_echo,
}

module _ (size id now_us : ℕ) where
  abbrev marked : List ℕ
  marked = write_at 0 (to_le 8 id) (replicate (max size 16) 0)

  -- The payload names its probe, and has the probe's size.
  pub payload_id : id < u64_mod → from_le (slice (probe_payload size id now_us) 0 8) ≡ id
  unfolding probe_payload
  payload_id h =
      ap from_le (
        ap (λ l. take 8 (l ++ to_le 8 now_us ++ drop (8 + length (to_le 8 now_us)) marked))
          (take-front (to_le 8 id) _ 8 (length-to_le 8 id))
        ∙ ap (take 8) (append_assoc (to_le 8 id) (to_le 8 now_us) _)
        ∙ take-front (to_le 8 id) _ 8 (length-to_le 8 id))
      ∙ from_le-to_le 8 id h

  length-marked : length marked ≡ max size 16
  length-marked = omega (
    arith,
    length-append (to_le 8 id) (drop (0 + length (to_le 8 id)) (replicate {A = ℕ} (max size 16) 0)),
    length-drop (0 + length (to_le 8 id)) (replicate {A = ℕ} (max size 16) 0),
    length-replicate {A = ℕ} (max size 16) 0,
    length-to_le 8 id,
  )

  pub length-probe_payload : length (probe_payload size id now_us) ≡ max size 16
  unfolding probe_payload
  length-probe_payload = omega (
    arith,
    length-append (take 8 marked ++ to_le 8 now_us) (drop (8 + length (to_le 8 now_us)) marked),
    length-append (take 8 marked) (to_le 8 now_us),
    length-take 8 marked,
    length-drop (8 + length (to_le 8 now_us)) marked,
    length-to_le 8 now_us,
    length-marked,
  )

pub on_echo-some :
    (now : ℕ) (p : PathProber) (payload : List ℕ) (id : ℕ) (probe : PendingProbe)
    → 16 ≤ length payload
    → from_le (slice payload 0 8) ≡ id
    → lookup id p.pending ≡ some probe
    → (on_echo now p payload).1
      ≡ note_reached
          (record p { pending = remove id p.pending; consecutive_timeouts = 0 })
          probe.probe_size
unfolding on_echo
on_echo-some now p payload id probe h e k = rw (long (length payload) h) (
    rw (ap (λ i. lookup i p.pending) e ∙ k, on_echo)
      (ap
        (λ i.
          note_reached (record p { pending = remove i p.pending; consecutive_timeouts = 0 })
            probe.probe_size)
        e))
  where
    long : (n : ℕ) → 16 ≤ n → ltb n 16 ≡ false
    long n h = ground arith

-- A map with one probe in it.
module _ (id : ℕ) (probe : PendingProbe) where
  pub lookup_one : lookup id ((id, probe) ∷ []) ≡ some probe
  lookup_one = ground arith

  pub remove_one : remove id ((id, probe) ∷ []) ≡ []
  remove_one = ground arith

-- The prober with its one probe under way.
abbrev pub probing : ℕ → PathProber → PathProber
probing now p = record p {
  next_id = add64 p.next_id 1;
  pending = (p.next_id, record { sent_at = now; probe_size = next_size p }) ∷ [];
  next_probe = now + 5_000_000_000;
}

pub build_probe_lem :
    (now now_us : ℕ) (p : PathProber)
    → p.pending ≡ []
    → build_probe now now_us p
      ≡ ((p.next_id, probe_payload (next_size p) p.next_id now_us), probing now p)
unfolding build_probe
build_probe_lem now now_us p h = ap made h
  where
    made : Map PendingProbe → (ℕ × List ℕ) × PathProber
    made m = (
      (p.next_id, probe_payload (next_size p) p.next_id now_us),
      record p {
        next_id = add64 p.next_id 1;
        pending = insert p.next_id (record { sent_at = now; probe_size = next_size p }) m;
        next_probe = now + 5_000_000_000;
      },
    )
