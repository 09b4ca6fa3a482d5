-- ===== src/Fec/Field/Slices.antt =====
-- `mul_add_slice` of src/fec/gf.rs, unrolled by eight, against what it is for.
use seam.Prelude.{
  some, ◌≤◌, ℕ, zero, suc, ◌+◌, ◌*◌, ◌/◌, ◌%◌, ◌<◌, List, false, ◌≡◌, ◌≢◌, refl, sym, ap, ◌∙◌,
  arith, ◌==◌, ltb, Bool-cases, inl, inr, if◌then◌else◌, length, get_or, length-set,
  get_or-set_self, get_or-set_ne,
}
use seam.Prelude.Bits.{bit_xor}
use seam.Prelude.Xor.{bit_xor-zero}
use seam.Fec.Field.Tables.{mul_one}
use seam.Fec.Field.Powers.{mul_nothing}
use seam.Fec.Field.{
  mul_add_slice, add, mul, scaled, log_at, xor_at, xor_eight, xor_chunks, xor_rest, xor_slice,
}

module _ (f : ℕ → ℕ) (src : List ℕ) where
  -- The positions from `b` on, `n` of them, in order.
  steps : ℕ → ℕ → List ℕ → List ℕ
  steps b zero dst = dst
  steps b (suc n) dst = xor_at f src (b + n) (steps b n dst)

  steps-steps : (b m n : ℕ) (dst : List ℕ) → steps (b + m) n (steps b m dst) ≡ steps b (m + n) dst
  unfolding steps
  steps-steps b m zero dst = ap (λ k. steps b k dst) (omega arith)
  steps-steps b m (suc n) dst =
      ap (xor_at f src (b + m + n)) (steps-steps b m n dst)
      ∙ ap (λ i. xor_at f src i (steps b (m + n) dst)) (omega arith)
      ∙ ap (λ k. steps b k dst) {x = suc (m + n)} (omega arith)

  xor_eight_lem : (b : ℕ) (dst : List ℕ) → xor_eight f src b dst ≡ steps b 8 dst
  unfolding steps xor_eight
  xor_eight_lem b dst =
      ap
        (λ i. xor_at f src (b + 7) (
          xor_at f src (b + 6) (
            xor_at f src (b + 5) (
              xor_at f src (b + 4) (
                xor_at f src (b + 3)
                  (xor_at f src (b + 2) (xor_at f src (b + 1) (xor_at f src i dst))))))))
        (omega arith)

  xor_chunks_lem : (n i : ℕ) (dst : List ℕ) → xor_chunks f src n i dst ≡ steps (i * 8) (n * 8) dst
  unfolding xor_chunks steps
  xor_chunks_lem zero i dst = refl
  xor_chunks_lem (suc n) i dst =
      xor_chunks_lem n (i + 1) (xor_eight f src (i * 8) dst)
      ∙ ap (steps ((i + 1) * 8) (n * 8)) (xor_eight_lem (i * 8) dst)
      ∙ ap (λ b. steps b (n * 8) (steps (i * 8) 8 dst)) (omega arith)
      ∙ steps-steps (i * 8) 8 (n * 8) dst
      ∙ ap (λ k. steps (i * 8) k dst) {x = 8 + n * 8} {y = suc n * 8} (omega arith)

  xor_rest_lem : (n i : ℕ) (dst : List ℕ) → xor_rest f src n i dst ≡ steps i n dst
  unfolding xor_rest steps
  xor_rest_lem zero i dst = refl
  xor_rest_lem (suc n) i dst =
      xor_rest_lem n (i + 1) (xor_at f src i dst)
      ∙ ap (λ j. steps (i + 1) n (xor_at f src j dst)) (omega arith)
      ∙ steps-steps i 1 n dst
      ∙ ap (λ k. steps i k dst) {x = 1 + n} {y = suc n} (omega arith)

  xor_slice_lem : (dst : List ℕ) → xor_slice f src dst ≡ steps 0 (length dst) dst
  unfolding xor_slice
  xor_slice_lem dst =
      xor_rest_lem (length dst % 8) (length dst / 8 * 8) _
      ∙ ap (steps (length dst / 8 * 8) (length dst % 8)) (xor_chunks_lem (length dst / 8) 0 dst)
      ∙ ap (λ b. steps b (length dst % 8) (steps 0 (length dst / 8 * 8) dst)) (omega arith)
      ∙ steps-steps 0 (length dst / 8 * 8) (length dst % 8) dst
      ∙ ap (λ k. steps 0 k dst) (omega arith)

  length-steps : (b n : ℕ) (dst : List ℕ) → length (steps b n dst) ≡ length dst
  unfolding steps xor_at
  length-steps b zero dst = refl
  length-steps b (suc n) dst = length-set (steps b n dst) (b + n) _ ∙ length-steps b n dst

  abbrev sum_at : List ℕ → ℕ → ℕ
  sum_at dst j = bit_xor (get_or dst j 0) (f (get_or src j 0))

  get_or-xor_at_self :
      (i j : ℕ) (dst : List ℕ)
      → i ≡ j
      → j < length dst
      → get_or (xor_at f src i dst) j 0 ≡ sum_at dst j
  unfolding xor_at
  get_or-xor_at_self i j dst e h =
      ap (λ k. get_or (xor_at f src k dst) j 0) e ∙ get_or-set_self dst j (sum_at dst j) 0 h

  get_or-xor_at_ne :
      (i j : ℕ) (dst : List ℕ) → i ≢ j → get_or (xor_at f src i dst) j 0 ≡ get_or dst j 0
  unfolding xor_at
  get_or-xor_at_ne i j dst h = get_or-set_ne dst i j _ 0 h

  get_or-steps :
      (n j : ℕ) (dst : List ℕ)
      → j < length dst
      → get_or (steps 0 n dst) j 0 ≡ (if ltb j n then sum_at dst j else get_or dst j 0)
  unfolding steps
  get_or-steps zero j dst h = ground arith
  get_or-steps (suc n) j dst h = elim (Bool-cases (j == n)) [
    | inl here ↦
        get_or-xor_at_self (0 + n) j (steps 0 n dst) (ground arith)
          (omega (arith, length-steps 0 n dst))
        ∙ ap (λ v. bit_xor v (f (get_or src j 0))) (get_or-steps n j dst h)
        ∙ ground arith
    | inr there ↦
        get_or-xor_at_ne (0 + n) j (steps 0 n dst) (λ e. ground arith)
        ∙ get_or-steps n j dst h
        ∙ ground arith
  ]

  -- Every position is reached once.
  pub xor_slice-at :
      (dst : List ℕ) (j : ℕ) → j < length dst → get_or (xor_slice f src dst) j 0 ≡ sum_at dst j
  xor_slice-at dst j h =
      ap (λ l. get_or l j 0) (xor_slice_lem dst) ∙ get_or-steps (length dst) j dst h ∙ ground arith

  pub length-xor_slice : (dst : List ℕ) → length (xor_slice f src dst) ≡ length dst
  length-xor_slice dst = ap length (xor_slice_lem dst) ∙ length-steps 0 (length dst) dst

scaled_lem : (scalar s : ℕ) → (scalar == 0) ≡ false → scaled (log_at scalar) s ≡ mul scalar s
unfolding scaled mul
scaled_lem scalar s h = rw (h, mul) refl

-- To a destination as long as the source, as the source's assertion asks, `mul_add_slice` adds at
-- each place the product of the scalar and the byte of the source, and keeps the length, whatever
-- the length is by 8. The bytes of the source are below 256.
pub mul_add_slice-at :
    (dst src : List ℕ) (scalar : ℕ)
    → length dst ≡ length src
    → ((i : ℕ) → get_or src i 0 < 256)
    → (out : List ℕ) × (mul_add_slice dst src scalar ≡ some out)
      × (length out ≡ length dst)
      × ((j : ℕ)
          → j < length dst
          → get_or out j 0 ≡ add (get_or dst j 0) (mul scalar (get_or src j 0)))
unfolding mul_add_slice add
mul_add_slice-at dst src scalar fits bytes = elim (Bool-cases (scalar == 0)) [
  | inl zero_ ↦ (
    dst,
    rw (zero_, mul_add_slice) refl,
    refl,
    (λ j h.
        sym (bit_xor-zero (get_or dst j 0))
        ∙ ap (bit_xor (get_or dst j 0)) (
            sym (
              ap (λ c. mul c (get_or src j 0)) {y = 0} (ground arith)
              ∙ mul_nothing (get_or src j 0)))),
  )
  | inr some_ ↦ elim (Bool-cases (scalar == 1)) [
    | inl one ↦ (
      xor_slice (λ s. s) src dst,
      rw (some_, mul_add_slice)
          (rw (not_short (length src) (length dst) (omega arith)) (rw one refl)),
      length-xor_slice (λ s. s) src dst,
      (λ j h.
          xor_slice-at (λ s. s) src dst j h
          ∙ ap (bit_xor (get_or dst j 0)) (
              sym (mul_one (get_or src j 0) (bytes j))
              ∙ ap (λ c. mul c (get_or src j 0)) (sym (ground arith)))),
    )
    | inr more ↦ (
      xor_slice (scaled (log_at scalar)) src dst,
      rw (some_, mul_add_slice)
          (rw (not_short (length src) (length dst) (omega arith)) (rw more refl)),
      length-xor_slice (scaled (log_at scalar)) src dst,
      (λ j h.
          xor_slice-at (scaled (log_at scalar)) src dst j h
          ∙ ap (bit_xor (get_or dst j 0)) (scaled_lem scalar (get_or src j 0) some_)),
    )
  ]
]
  where
    not_short : (a b : ℕ) → b ≤ a → ltb a b ≡ false
    not_short a b h = ground arith
