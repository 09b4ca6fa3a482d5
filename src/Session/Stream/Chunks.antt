-- ===== src/Session/Stream/Chunks.antt =====
-- The chunks that src/session/stream.rs sends, as parts of the whole that they make up.
use seam.Prelude.{
  ℕ, ◌+◌, ◌-◌, ◌≤◌, ◌<◌, List, [], ◌∷◌, ◌++◌, ◌≡◌, ◌⊎◌, inl, inr, sym, ap, ◌∙◌, arith, length, take,
  drop, length-append, take-append, drop-append, drop-drop, take-take_le, drop-take,
}
use seam.Session.Stream.{Bytes}
use seam.Session.Stream.Send.{concat, IsContiguous}

abbrev pub Chunk : Type 0
Chunk = ℕ × Bytes

abbrev pub In : Chunk → List Chunk → Type 0
In c [] = ⊥
In c (x ∷ xs) = (c ≡ x) ⊎ In c xs

-- Where a chunk of a contiguous list stands in the whole.
pub record Placed (n o : ℕ) (d whole : Bytes) : Type 0 where
  pub after : n ≤ o
  pub same : take (length d) (drop (o - n) whole) ≡ d
  pub fits : o - n + length d ≤ length whole

Placed-here : (n : ℕ) (d rest : Bytes) → Placed n n d (d ++ rest)
Placed-here n d rest = record {
  after = omega arith;
  same =
      ap (λ k. take (length d) (drop k (d ++ rest))) {x = n - n} {y = 0} (omega arith)
      ∙ take-append d rest;
  fits = omega (arith, length-append d rest);
}

Placed-later :
    (n o : ℕ) (d d' rest : Bytes) → Placed (n + length d') o d rest → Placed n o d (d' ++ rest)
Placed-later n o d d' rest p = record {
  after = omega (arith, p.after);
  same =
      ap (take (length d)) (
        ap (λ k. drop k (d' ++ rest)) {x = o - n} {y = length d' + (o - (n + length d'))}
          (omega (arith, p.after))
        ∙ sym (drop-drop (o - (n + length d')) (length d') (d' ++ rest))
        ∙ ap (drop (o - (n + length d'))) (drop-append d' rest))
      ∙ p.same;
  fits = omega (arith, p.fits, p.after, length-append d' rest);
}

pub In-Placed :
    (n o : ℕ) (d : Bytes) (cs : List Chunk)
    → IsContiguous n cs
    → In (o, d) cs
    → Placed n o d (concat cs)
In-Placed n o d [] c i = absurd i
In-Placed n o d ((o', d') ∷ cs) c (inl e) =
    rw (ap (λ (x : Chunk). x.0) e ∙ c.0, ap (λ (x : Chunk). x.1) e) (Placed-here n d' (concat cs))
In-Placed n o d ((o', d') ∷ cs) c (inr i) =
    Placed-later n o d d' (concat cs) (In-Placed (n + length d') o d cs c.1 i)

-- Two chunks of a contiguous list do not overlap.
pub In-disjoint :
    (n o o' : ℕ) (d d' : Bytes) (cs : List Chunk)
    → IsContiguous n cs
    → In (o, d) cs
    → In (o', d') cs
    → o < o'
    → o + length d ≤ o'
In-disjoint n o o' d d' [] c i j h = absurd i
In-disjoint n o o' d d' ((k, x) ∷ cs) c (inl e) (inl f) h =
    absurd (omega (arith, ap (λ (x : Chunk). x.0) e, ap (λ (x : Chunk). x.0) f))
In-disjoint n o o' d d' ((k, x) ∷ cs) c (inl e) (inr j) h = omega (
  arith,
  c.0,
  ap (λ (x : Chunk). x.0) e,
  ap (λ (x : Chunk). length x.1) e,
  (In-Placed (n + length x) o' d' cs c.1 j).after,
)
In-disjoint n o o' d d' ((k, x) ∷ cs) c (inr i) (inl f) h =
    absurd
      (omega (arith, c.0, ap (λ (x : Chunk). x.0) f, (In-Placed (n + length x) o d cs c.1 i).after))
In-disjoint n o o' d d' ((k, x) ∷ cs) c (inr i) (inr j) h =
    In-disjoint (n + length x) o o' d d' cs c.1 i j h

Placed-drop :
    (o offset : ℕ) (d whole : Bytes)
    → Placed 0 o d whole
    → o ≤ offset
    → offset ≤ o + length d
    → drop (offset - o) d ≡ take (length d - (offset - o)) (drop offset whole)
Placed-drop o offset d whole p h k =
    ap (drop (offset - o)) (
      sym p.same
      ∙ ap (λ n. take n (drop (o - 0) whole)) {y = offset - o + (length d - (offset - o))}
          (omega arith))
    ∙ drop-take (offset - o) (length d - (offset - o)) (drop (o - 0) whole)
    ∙ ap (take (length d - (offset - o))) (
        drop-drop (offset - o) (o - 0) whole
        ∙ ap (λ n. drop n whole) {x = o - 0 + (offset - o)} {y = offset} (omega arith))

-- What a round of the loop appends.
pub Placed-take :
    (o offset k : ℕ) (d whole : Bytes)
    → Placed 0 o d whole
    → o ≤ offset
    → offset ≤ o + length d
    → k ≤ length d - (offset - o)
    → take k (drop (offset - o) d) ≡ take k (drop offset whole)
Placed-take o offset k d whole p h l m =
    ap (take k) (Placed-drop o offset d whole p h l)
    ∙ take-take_le k (length d - (offset - o)) (drop offset whole) m
