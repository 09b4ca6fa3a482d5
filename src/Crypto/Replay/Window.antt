-- ===== src/Crypto/Replay/Window.antt =====
-- The bitmap of src/crypto/replay.rs as a set of positions: marking a position and sliding the words.
use native.Mathlib.Nat.{one-le-pow, pow-le-pow_right}
use seam.Prelude.{
  ℕ, zero, suc, ◌*◌, ◌/◌, ◌%◌, ◌^◌, ◌<◌, max, List, not, ◌≡◌, ◌≢◌, ap, ◌∙◌, inl, inr, arith, ◌==◌,
  Bool-cases, length, get_or, replicate, length-set, get_or-set_self, get_or-set_ne,
  get_or-replicate, length-replicate,
}
use seam.Prelude.Bits.{
  bit_or, bit_at, bit_at-lt, bit_at-bit_or, bit_and-pow, bit_at-pow_self, bit_at-pow_ne,
  bit_at-zero, bit_or-lt,
}
use seam.Prelude.Bytes.{u64_mod}
use seam.Crypto.Replay.{words, is_set, mark}

-- The bit of a position, read past the last word as 0.
abbrev pub seen : List ℕ → ℕ → ℕ
seen bitmap p = bit_at (get_or bitmap (p / 64) 0) (p % 64)

pub record IsBitmap (bitmap : List ℕ) : Type 0 where
  pub sixteen : length bitmap ≡ words
  pub in_word : (i : ℕ) → get_or bitmap i 0 < u64_mod

nonzero : (x k : ℕ) → x < 2 → 0 < k → not (x * k == 0) ≡ (x == 1)
nonzero zero k h p = ground arith
nonzero (suc zero) k h p = ground arith
nonzero (suc (suc x)) k h p = absurd (omega arith)

pub is_set-seen : (bitmap : List ℕ) (p : ℕ) → is_set bitmap p ≡ (seen bitmap p == 1)
unfolding is_set
is_set-seen bitmap p =
    rw (bit_and-pow (get_or bitmap (p / 64) 0) (p % 64))
      (nonzero (seen bitmap p) _ (bit_at-lt _ (p % 64)) (one-le-pow (p % 64) 2 (omega arith)))

max-one : (x : ℕ) → x < 2 → max x 1 ≡ 1
max-one x h = omega arith

-- Marking a position sets its bit and no other.
pub seen-mark_self :
    (bitmap : List ℕ) (p : ℕ) → IsBitmap bitmap → p < 1024 → seen (mark bitmap p) p ≡ 1
unfolding mark
seen-mark_self bitmap p v h =
    rw
      (get_or-set_self bitmap (p / 64) (bit_or (get_or bitmap (p / 64) 0) (2 ^ (p % 64))) 0
        (omega (arith, v.sixteen)))
      (rw
        (bit_at-bit_or (get_or bitmap (p / 64) 0) (2 ^ (p % 64)) (p % 64), bit_at-pow_self (p % 64))
        (max-one _ (bit_at-lt _ (p % 64))))

seen-mark_in :
    (bitmap : List ℕ) (p q : ℕ)
    → IsBitmap bitmap
    → p < 1024
    → p ≢ q
    → q / 64 ≡ p / 64
    → seen (mark bitmap p) q ≡ seen bitmap q
unfolding mark
seen-mark_in bitmap p q v h ne e =
    rw
      (
        e,
        get_or-set_self bitmap (p / 64) (bit_or (get_or bitmap (p / 64) 0) (2 ^ (p % 64))) 0
            (omega (arith, v.sixteen)),
      )
      (rw
        (
          bit_at-bit_or (get_or bitmap (p / 64) 0) (2 ^ (p % 64)) (q % 64),
          bit_at-pow_ne (p % 64) (q % 64) (λ k. ne (omega arith)),
        )
        (omega arith))

pub seen-mark_ne :
    (bitmap : List ℕ) (p q : ℕ)
    → IsBitmap bitmap
    → p < 1024
    → p ≢ q
    → seen (mark bitmap p) q ≡ seen bitmap q
seen-mark_ne bitmap p q v h ne = elim (Bool-cases (q / 64 == p / 64)) [
  | inl same ↦ seen-mark_in bitmap p q v h ne (ground arith)
  | inr other ↦
      unfold mark in
      ap (λ w. bit_at w (q % 64)) (get_or-set_ne bitmap (p / 64) (q / 64) _ 0 (ground arith))
]

bit-lt : (b : ℕ) → b < 64 → 2 ^ b < u64_mod
bit-lt b h = omega (arith, pow-le-pow_right {n = 2} (omega arith) {i = b} {j = 63} (omega arith))

in_word-mark :
    (bitmap : List ℕ) (p i : ℕ) → IsBitmap bitmap → p < 1024 → get_or (mark bitmap p) i 0 < u64_mod
unfolding mark
in_word-mark bitmap p i v h = elim (Bool-cases (p / 64 == i)) [
  | inl same ↦
      let e : p / 64 ≡ i = ground arith in
      rw
        (
          ← e,
          get_or-set_self bitmap (p / 64) (bit_or (get_or bitmap (p / 64) 0) (2 ^ (p % 64))) 0
              (omega (arith, v.sixteen)),
        )
        (bit_or-lt 64 _ _ (v.in_word (p / 64)) (bit-lt (p % 64) (omega arith)))
  | inr other ↦ rw (get_or-set_ne bitmap (p / 64) i _ 0 (ground arith)) (v.in_word i)
]

pub mark-IsBitmap :
    (bitmap : List ℕ) (p : ℕ) → IsBitmap bitmap → p < 1024 → IsBitmap (mark bitmap p)
mark-IsBitmap bitmap p v h = record {
  sixteen = unfold mark in length-set bitmap _ _ ∙ v.sixteen;
  in_word = λ i. in_word-mark bitmap p i v h;
}

pub empty-IsBitmap : IsBitmap (replicate words 0)
empty-IsBitmap = record {
  sixteen = length-replicate {A = ℕ} words 0;
  in_word = λ i. rw (get_or-replicate {A = ℕ} words i 0) (omega arith);
}

pub seen-empty : (p : ℕ) → seen (replicate words 0) p ≡ 0
seen-empty p = rw (get_or-replicate {A = ℕ} words (p / 64) 0) (bit_at-zero (p % 64))
