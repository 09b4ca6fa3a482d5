-- ===== src/Fec/Encoder/Cauchy.antt =====
-- The square parts of the matrix of src/fec/codec.rs: each has only one solution of its equations.
pub mod Regular
use seam.Prelude.{
  ℕ, zero, suc, ◌+◌, ◌%◌, ◌≤◌, ◌<◌, List, [], ◌∷◌, ◌≡◌, ◌≢◌, ◌⊎◌, inl, inr, none, some, refl, sym,
  ap, ◌∙◌, arith, length,
}
use seam.Prelude.Bits.{bit_xor}
use mathlib.Core.Path.{subst}
use seam.Fec.Field.{add, mul, inv}
use seam.Fec.Field.Tables.{mul_one, mul-inv, inv-byte}
use seam.Fec.Field.Powers.{mul-byte, mul_null}
use seam.Fec.Field.Laws.{mul_comm, mul-add, mul-mul}
use seam.Fec.Field.Sums.{
  add_lem, add_self, add-zero, zero-add, add-byte, add_interchange, equal_of_add, zero_of_mul,
}
use seam.Fec.Encoder.{cauchy}
use seam.Fec.Encoder.Repairs.{coefficient, coefficient_lem, cauchy-some}
use seam.Fec.Encoder.Fractions.{sum_terms}

-- The numbers ascend and are at least `n`.
abbrev pub Ascends : ℕ → List ℕ → Type 0
Ascends n [] = Unit
Ascends n (x ∷ xs) = (n ≤ x) × Ascends (suc x) xs

abbrev pub All : (ℕ → Type 0) → List ℕ → Type 0
All P [] = Unit
All P (x ∷ xs) = P x × All P xs

unfoldable pub sum_over : List ℕ → (ℕ → ℕ) → ℕ
sum_over [] f = 0
sum_over (j ∷ js) f = add (f j) (sum_over js f)

pub Ascends-All : (n : ℕ) (xs : List ℕ) → Ascends n xs → All (λ x. n ≤ x) xs
Ascends-All n [] h = tt
Ascends-All n (x ∷ xs) h = (h.0, weaken xs (Ascends-All (suc x) xs h.1))
  where
    weaken : (ys : List ℕ) → All (λ y. suc x ≤ y) ys → All (λ y. n ≤ y) ys
    weaken [] k = tt
    weaken (y ∷ ys) k = (omega (arith, h.0, k.0), weaken ys k.1)

pub apart : (x a : ℕ) → x ≢ a → add x a ≢ 0
apart x a n e = n (equal_of_add x a e)

-- The sum for the row `x` over some columns.
abbrev pub row_sum : ℕ → (ℕ → ℕ) → List ℕ → ℕ → ℕ
row_sum r v cols x = sum_over cols (λ j. mul (coefficient x j r) (v j))

-- The element of the matrix is the inverse of a difference that is not 0.
module _ (r k : ℕ) (room : r + k ≤ 256) where
  pub element :
      (x j : ℕ)
      → x < r
      → j < k
      → (coefficient x j r < 256) × (mul (add x (r + j)) (coefficient x j r) ≡ 1)
  unfolding cauchy
  element x j h l =
      let (c, some_) = cauchy-some x j r h (omega arith) in
      let same = coefficient_lem x j r c some_ in
      let wrap : (r + j) % 256 ≡ r + j = omega arith in
      let inverse : inv (add x (r + j)) ≡ some c =
        ap inv (sym (add_lem x (r + j)) ∙ ap (bit_xor x) (sym wrap)) ∙ some_ in
      let byte = add-byte x (r + j) (omega arith) (omega arith) in
      elim (mul-inv (add x (r + j)) byte) [
        | inl (zero_, none_) ↦ absurd (ground (arith, none_, inverse))
        | inr (y, some_y, one) ↦
            let e : y ≡ coefficient x j r = ground (arith, some_y, inverse, same) in
            (
              subst (λ u. u < 256) e (inv-byte (add x (r + j)) y byte some_y),
              ap (mul (add x (r + j))) (sym e) ∙ one,
            )
      ]

  -- The unknowns of the smaller matrix.
  unfoldable pub reduced : (ℕ → ℕ) → ℕ → ℕ → ℕ → ℕ
  reduced v a b j = mul (mul (v j) (add (r + b) (r + j))) (coefficient a j r)

  pub reduced-bytes :
      (v : ℕ → ℕ) (a b : ℕ) (js : List ℕ)
      → a < r
      → b < k
      → All (λ j. v j < 256) js
      → All (λ j. j < k) js
      → All (λ j. reduced v a b j < 256) js
  unfolding reduced
  reduced-bytes v a b [] h l m n = tt
  reduced-bytes v a b (j ∷ js) h l m n = (
    mul-byte (mul (v j) (add (r + b) (r + j))) (coefficient a j r)
        (mul-byte (v j) (add (r + b) (r + j)) m.0
          (add-byte (r + b) (r + j) (omega arith) (omega (arith, n.0))))
        (element a j h n.0).0,
    reduced-bytes v a b js h l m.1 n.1,
  )

  pub row_sum-byte :
      (v : ℕ → ℕ) (js : List ℕ) (x : ℕ)
      → x < r
      → All (λ j. v j < 256) js
      → All (λ j. j < k) js
      → row_sum r v js x < 256
  unfolding sum_over
  row_sum-byte v [] x h l m = omega arith
  row_sum-byte v (j ∷ js) x h l m =
      add-byte (mul (coefficient x j r) (v j)) (row_sum r v js x)
        (mul-byte (coefficient x j r) (v j) (element x j h m.0).0 l.0)
        (row_sum-byte v js x h l.1 m.1)

  -- The sums of two rows, multiplied, are together a multiple of a sum of the smaller matrix.
  pub sum_rows :
      (v : ℕ → ℕ) (x a b : ℕ) (js : List ℕ)
      → x < r
      → a < r
      → b < k
      → All (λ j. v j < 256) js
      → All (λ j. j < k) js
      → add (mul (add x (r + b)) (row_sum r v js x)) (mul (add a (r + b)) (row_sum r v js a))
        ≡ mul (add x a) (row_sum r (reduced v a b) js x)
  unfolding sum_over reduced
  sum_rows v x a b [] hx ha hb bytes low =
      ap (λ u. add u (mul (add a (r + b)) 0)) (mul_null (add x (r + b)))
      ∙ zero-add (mul (add a (r + b)) 0)
      ∙ mul_null (add a (r + b))
      ∙ sym (mul_null (add x a))
  sum_rows v x a b (j ∷ js) hx ha hb bytes low =
      let (hp, one) = element x j hx low.0 in
      let (hq, two) = element a j ha low.0 in
      let p = coefficient x j r in
      let q = coefficient a j r in
      let new = reduced v a b j in
      let point = add-byte (r + b) (r + j) (omega arith) (omega (arith, low.0)) in
      let hnew =
        mul-byte (mul (v j) (add (r + b) (r + j))) q
          (mul-byte (v j) (add (r + b) (r + j)) bytes.0 point) hq in
      let s = row_sum-byte v js x hx bytes.1 low.1 in
      let t = row_sum-byte v js a ha bytes.1 low.1 in
      let u =
        row_sum-byte (reduced v a b) js x hx (reduced-bytes v a b js ha hb bytes.1 low.1) low.1 in
      (λ i.
        add
          (mul-add (add x (r + b)) (mul p (v j)) (row_sum r v js x)
            (add-byte x (r + b) (omega arith) (omega arith)) (mul-byte p (v j) hp bytes.0) s i)
          (mul-add (add a (r + b)) (mul q (v j)) (row_sum r v js a)
            (add-byte a (r + b) (omega arith) (omega arith)) (mul-byte q (v j) hq bytes.0) t i))
      ∙ add_interchange (mul (add x (r + b)) (mul p (v j))) (mul (add x (r + b)) (row_sum r v js x))
          (mul (add a (r + b)) (mul q (v j))) (mul (add a (r + b)) (row_sum r v js a))
      ∙ (λ i.
          add
            (sum_terms x a (r + b) (r + j) p q (v j) (omega arith) (omega arith) (omega arith)
              (omega (arith, low.0)) hp hq bytes.0 one two i)
            (sum_rows v x a b js hx ha hb bytes.1 low.1 i))
      ∙ sym (
          mul-add (add x a) (mul p new) (row_sum r (reduced v a b) js x)
            (add-byte x a (omega arith) (omega arith)) (mul-byte p new hp hnew) u)
