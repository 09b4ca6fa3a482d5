-- ===== src/Session/Ack/Frame.antt =====
-- The ACK frame of src/session/ack.rs through its bytes.
use mathlib.Core.List.{append_assoc}
use seam.Prelude.{
  ℕ, suc, ◌+◌, ◌-◌, ◌≤◌, ◌<◌, List, [], ◌∷◌, ◌++◌, some, false, ◌≡◌, refl, sym, ap, ◌∙◌, arith, ltb,
  length, length-append,
}
use seam.Prelude.Bytes.{u16_mod, u64_mod, to_le, from_le, slice, length-to_le, from_le-to_le}
use seam.Prelude.Splice.{slice-front, slice-skip}
use seam.Prelude.Words.{add64}
use seam.Session.Ack.{put_ranges, put_frame, parse_ranges, parse_ack_frame, checked_sub, and_then}

-- Each range is below `cs`, the start of the one before.
abbrev pub Descending : ℕ → List (ℕ × ℕ) → Type 0
Descending cs [] = Unit
Descending cs ((start, end_) ∷ ranges) = (start ≤ end_) × (end_ < cs) × Descending start ranges

-- Two words at `off`.
words_at :
    (pre rest : List ℕ) (off a b : ℕ)
    → length pre ≡ off
    → a < u64_mod
    → b < u64_mod
    → (from_le (slice (pre ++ (to_le 8 a ++ (to_le 8 b ++ rest))) off (off + 8)) ≡ a)
      × (from_le (slice (pre ++ (to_le 8 a ++ (to_le 8 b ++ rest))) (off + 8) (off + 16)) ≡ b)
words_at pre rest off a b h ha hb = (
  ap from_le (
        ap (λ o. slice (pre ++ (to_le 8 a ++ (to_le 8 b ++ rest))) o (off + 8)) (omega arith)
        ∙ slice-skip pre (to_le 8 a ++ (to_le 8 b ++ rest)) off 0 8 h
        ∙ slice-front (to_le 8 a) (to_le 8 b ++ rest) 8 (length-to_le 8 a))
      ∙ from_le-to_le 8 a ha,
  ap from_le (
        slice-skip pre (to_le 8 a ++ (to_le 8 b ++ rest)) off 8 16 h
        ∙ slice-skip (to_le 8 a) (to_le 8 b ++ rest) 8 0 8 (length-to_le 8 a)
        ∙ slice-front (to_le 8 b) rest 8 (length-to_le 8 b))
      ∙ from_le-to_le 8 b hb,
)

checked_sub-le : (a b : ℕ) → b ≤ a → checked_sub a b ≡ some (a - b)
unfolding checked_sub
checked_sub-le a b h = ground arith

parse_step :
    (n off cs gap len start end_ : ℕ) (frame : List ℕ)
    → off + 16 ≤ length frame
    → from_le (slice frame off (off + 8)) ≡ gap
    → from_le (slice frame (off + 8) (off + 16)) ≡ len
    → checked_sub cs (add64 gap 1) ≡ some end_
    → checked_sub end_ len ≡ some start
    → parse_ranges (suc n) off frame cs
      ≡ and_then (parse_ranges n (off + 16) frame start) (λ ranges. some ((start, end_) ∷ ranges))
unfolding parse_ranges
parse_step n off cs gap len start end_ frame h g l e s =
    rw (long (length frame) (off + 16) h) (rw g (rw l (rw e (rw s refl))))
  where
    long : (a b : ℕ) → b ≤ a → ltb a b ≡ false
    long a b h = ground arith

gap_lem :
    (cs end_ : ℕ) → end_ < cs → cs < u64_mod → checked_sub cs (add64 (cs - end_ - 1) 1) ≡ some end_
unfolding checked_sub
gap_lem cs end_ h k = ground arith

length_lem : (start end_ : ℕ) → start ≤ end_ → checked_sub end_ (end_ - start) ≡ some start
unfolding checked_sub
length_lem start end_ h = ground arith

parse_ranges-put :
    (ranges : List (ℕ × ℕ)) (pre : List ℕ) (off cs : ℕ)
    → length pre ≡ off
    → cs < u64_mod
    → Descending cs ranges
    → parse_ranges (length ranges) off (pre ++ put_ranges cs ranges) cs ≡ some ranges
unfolding put_ranges parse_ranges
parse_ranges-put [] pre off cs h hc d = refl
parse_ranges-put ((start, end_) ∷ ranges) pre off cs h hc (a, b, c) =
    parse_step (length ranges) off cs (cs - end_ - 1) (end_ - start) start end_
      (pre ++ (gap_bytes ++ (length_bytes ++ put_ranges start ranges)))
      (omega (
        arith,
        length-append pre (gap_bytes ++ (length_bytes ++ put_ranges start ranges)),
        length-append gap_bytes (length_bytes ++ put_ranges start ranges),
        length-append length_bytes (put_ranges start ranges),
        length-to_le 8 (cs - end_ - 1),
        length-to_le 8 (end_ - start),
      ))
      words.0 words.1 (gap_lem cs end_ b hc) (length_lem start end_ a)
    ∙ ap (λ o. and_then o (λ rest. some ((start, end_) ∷ rest)))
        (ap (λ f. parse_ranges (length ranges) (off + 16) f start) regroup
          ∙ parse_ranges-put ranges (pre ++ (gap_bytes ++ length_bytes)) (off + 16) start
              (omega (
                arith,
                length-append pre (gap_bytes ++ length_bytes),
                length-append gap_bytes length_bytes,
                length-to_le 8 (cs - end_ - 1),
                length-to_le 8 (end_ - start),
              ))
              (omega arith) c)
  where
    gap_bytes : List ℕ
    gap_bytes = to_le 8 (cs - end_ - 1)

    length_bytes : List ℕ
    length_bytes = to_le 8 (end_ - start)

    words :
        (from_le
            (slice (pre ++ (gap_bytes ++ (length_bytes ++ put_ranges start ranges))) off (off + 8))
          ≡ cs - end_ - 1)
        × (from_le (
              slice
                (pre ++ (gap_bytes ++ (length_bytes ++ put_ranges start ranges)))
                (off + 8)
                (off + 16))
            ≡ end_ - start)
    words =
        words_at pre (put_ranges start ranges) off (cs - end_ - 1) (end_ - start) h (omega arith)
          (omega arith)

    regroup :
        pre ++ (gap_bytes ++ (length_bytes ++ put_ranges start ranges))
        ≡ (pre ++ (gap_bytes ++ length_bytes)) ++ put_ranges start ranges
    regroup =
        ap (◌++◌ pre) (sym (append_assoc gap_bytes length_bytes (put_ranges start ranges)))
        ∙ sym (append_assoc pre (gap_bytes ++ length_bytes) (put_ranges start ranges))

-- The four fields before the ranges.
module _ (a b c d : ℕ) (body : List ℕ) (ha : a < u64_mod) (hb : b < u64_mod) (hc : c < u16_mod)
    (hd : d < u64_mod) where
  frame : List ℕ
  frame = to_le 8 a ++ (to_le 8 b ++ (to_le 2 c ++ (to_le 8 d ++ body)))

  field_a : from_le (slice frame 0 8) ≡ a
  unfolding frame
  field_a = ap from_le (slice-front (to_le 8 a) _ 8 (length-to_le 8 a)) ∙ from_le-to_le 8 a ha

  field_b : from_le (slice frame 8 16) ≡ b
  unfolding frame
  field_b =
      ap from_le (
        slice-skip (to_le 8 a) _ 8 0 8 (length-to_le 8 a)
        ∙ slice-front (to_le 8 b) _ 8 (length-to_le 8 b))
      ∙ from_le-to_le 8 b hb

  field_c : from_le (slice frame 16 18) ≡ c
  unfolding frame
  field_c =
      ap from_le (
        slice-skip (to_le 8 a) _ 8 8 10 (length-to_le 8 a)
        ∙ slice-skip (to_le 8 b) _ 8 0 2 (length-to_le 8 b)
        ∙ slice-front (to_le 2 c) _ 2 (length-to_le 2 c))
      ∙ from_le-to_le 2 c hc

  field_d : from_le (slice frame 18 26) ≡ d
  unfolding frame
  field_d =
      ap from_le (
        slice-skip (to_le 8 a) _ 8 10 18 (length-to_le 8 a)
        ∙ slice-skip (to_le 8 b) _ 8 2 10 (length-to_le 8 b)
        ∙ slice-skip (to_le 2 c) _ 2 0 8 (length-to_le 2 c)
        ∙ slice-front (to_le 8 d) _ 8 (length-to_le 8 d))
      ∙ from_le-to_le 8 d hd

  length-frame : length frame ≡ 26 + length body
  unfolding frame
  length-frame = omega (
    arith,
    length-append (to_le 8 a) (to_le 8 b ++ (to_le 2 c ++ (to_le 8 d ++ body))),
    length-append (to_le 8 b) (to_le 2 c ++ (to_le 8 d ++ body)),
    length-append (to_le 2 c) (to_le 8 d ++ body),
    length-append (to_le 8 d) body,
    length-to_le 8 a,
    length-to_le 8 b,
    length-to_le 2 c,
    length-to_le 8 d,
  )

  -- The fields are 26 bytes, which the ranges follow.
  prefix : List ℕ
  prefix = to_le 8 a ++ (to_le 8 b ++ (to_le 2 c ++ to_le 8 d))

  length-prefix : length prefix ≡ 26
  unfolding prefix
  length-prefix = omega (
    arith,
    length-append (to_le 8 a) (to_le 8 b ++ (to_le 2 c ++ to_le 8 d)),
    length-append (to_le 8 b) (to_le 2 c ++ to_le 8 d),
    length-append (to_le 2 c) (to_le 8 d),
    length-to_le 8 a,
    length-to_le 8 b,
    length-to_le 2 c,
    length-to_le 8 d,
  )

  prefix-append : frame ≡ prefix ++ body
  unfolding frame prefix
  prefix-append = sym (
      append_assoc (to_le 8 a) (to_le 8 b ++ (to_le 2 c ++ to_le 8 d)) body
      ∙ ap (◌++◌ (to_le 8 a)) (
          append_assoc (to_le 8 b) (to_le 2 c ++ to_le 8 d) body
          ∙ ap (◌++◌ (to_le 8 b)) (append_assoc (to_le 2 c) (to_le 8 d) body)))

  -- Parsing such a frame, once its ranges are parsed.
  parse_frame :
      (ranges : List (ℕ × ℕ))
      → parse_ranges c 26 (prefix ++ body) (a - d) ≡ some ranges
      → parse_ack_frame frame ≡ some (a, b, (a - d, a) ∷ ranges)
  unfolding parse_ack_frame
  parse_frame ranges h = rw (long (length frame) (omega (arith, length-frame))) (
      rw field_a (
        rw field_b (
          rw field_c
            (rw field_d (rw (ap (λ f. parse_ranges c 26 f (a - d)) prefix-append ∙ h) refl)))))
    where
      long : (n : ℕ) → 26 ≤ n → ltb n 26 ≡ false
      long n h = ground arith

-- A frame of fewer than 65536 ranges after the first, which ends at `largest`, each below the one
-- before and within 64 bits, is parsed to those ranges, with `largest` and the delay as they were.
pub parse_ack_frame-put_frame :
    (largest ack_delay_us start : ℕ) (extra : List (ℕ × ℕ))
    → largest < u64_mod
    → ack_delay_us < u64_mod
    → length extra < u16_mod
    → start ≤ largest
    → Descending start extra
    → parse_ack_frame (put_frame largest ack_delay_us ((start, largest) ∷ extra))
      ≡ some (largest, ack_delay_us, (start, largest) ∷ extra)
unfolding put_frame frame
parse_ack_frame-put_frame largest ack_delay_us start extra hl hd hn hs d =
    ap
      (λ k. parse_ack_frame (
        to_le 8 largest
        ++ (to_le 8 ack_delay_us
            ++ (to_le 2 k ++ (to_le 8 (largest - start) ++ put_ranges start extra)))))
      {y = length extra} (omega arith)
    ∙ parse_frame largest ack_delay_us (length extra) (largest - start) (put_ranges start extra) hl
        hd hn (omega arith) extra
        (ap (parse_ranges (length extra) 26 (prefix_of ++ put_ranges start extra)) back
          ∙ parse_ranges-put extra prefix_of 26 start
              (length-prefix largest ack_delay_us (length extra) (largest - start)
                (put_ranges start extra) hl hd hn (omega arith))
              (omega arith) d)
    ∙ ap (λ s. some (largest, ack_delay_us, (s, largest) ∷ extra)) back
  where
    back : largest - (largest - start) ≡ start
    back = omega arith

    prefix_of : List ℕ
    prefix_of =
        prefix largest ack_delay_us (length extra) (largest - start) (put_ranges start extra) hl hd
          hn (omega arith)
