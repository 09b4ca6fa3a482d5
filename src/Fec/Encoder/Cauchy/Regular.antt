-- ===== src/Fec/Encoder/Cauchy/Regular.antt =====
-- A square part of the matrix of src/fec/codec.rs takes no other column than that of zeros to zeros.
use seam.Prelude.{ℕ, suc, ◌+◌, ◌≤◌, ◌<◌, List, [], ◌∷◌, ◌≡◌, refl, sym, ap, ◌∙◌, arith, length}
use seam.Fec.Field.{add, mul}
use seam.Fec.Field.Tables.{mul_one}
use seam.Fec.Field.Powers.{mul-byte, mul_null}
use seam.Fec.Field.Laws.{mul_comm, mul-add, mul-mul}
use seam.Fec.Field.Sums.{add_self, add-byte, equal_of_add, zero_of_mul}
use seam.Fec.Encoder.Repairs.{coefficient}
use seam.Fec.Encoder.Cauchy.{
  Ascends, Ascends-All, All, sum_over, row_sum, element, apart, reduced, reduced-bytes,
  row_sum-byte, sum_rows,
}

module _ (r k : ℕ) (room : r + k ≤ 256) where
  -- A row's equation, multiplied by its difference from the first column.
  lifted :
      (v : ℕ → ℕ) (x b : ℕ) (js : List ℕ)
      → x < r
      → b < k
      → v b < 256
      → All (λ j. v j < 256) js
      → All (λ j. j < k) js
      → row_sum r v (b ∷ js) x ≡ 0
      → v b ≡ mul (add x (r + b)) (row_sum r v js x)
  unfolding sum_over
  lifted v x b js hx hb small bytes low zero_ =
      let (hp, one) = element r k room x b hx hb in
      let p = coefficient x b r in
      let d = add x (r + b) in
      let hd = add-byte x (r + b) (omega arith) (omega arith) in
      equal_of_add (v b) (mul d (row_sum r v js x)) (
        ap (λ u. add u (mul d (row_sum r v js x)))
          (sym (mul_one (v b) small)
            ∙ ap (λ u. mul u (v b)) (sym one)
            ∙ mul-mul d p (v b) hd hp small)
        ∙ sym (
            mul-add d (mul p (v b)) (row_sum r v js x) hd (mul-byte p (v b) hp small)
              (row_sum-byte r k room v js x hx bytes low))
        ∙ ap (mul d) zero_
        ∙ mul_null d)

  -- The rows after the first hold of the smaller matrix.
  smaller :
      (v : ℕ → ℕ) (a b : ℕ) (xs js : List ℕ)
      → a < r
      → b < k
      → v b < 256
      → All (λ j. v j < 256) js
      → All (λ j. j < k) js
      → row_sum r v (b ∷ js) a ≡ 0
      → All (λ x. suc a ≤ x) xs
      → All (λ x. x < r) xs
      → All (λ x. row_sum r v (b ∷ js) x ≡ 0) xs
      → All (λ x. row_sum r (reduced r k room v a b) js x ≡ 0) xs
  smaller v a b [] js ha hb small bytes low first later rows zeros = tt
  smaller v a b (x ∷ xs) js ha hb small bytes low first later rows zeros = (
    zero_of_mul (row_sum r (reduced r k room v a b) js x) (add x a)
        (row_sum-byte r k room (reduced r k room v a b) js x rows.0
          (reduced-bytes r k room v a b js ha hb bytes low) low)
        (add-byte x a (omega (arith, rows.0)) (omega arith))
        (apart x a (λ e. absurd (omega (arith, later.0))))
        (mul_comm (row_sum r (reduced r k room v a b) js x) (add x a)
          ∙ sym (sum_rows r k room v x a b js rows.0 ha hb bytes low)
          ∙ (λ i.
              add (sym (lifted v x b js rows.0 hb small bytes low zeros.0) i)
                (sym (lifted v a b js ha hb small bytes low first) i))
          ∙ add_self (v b)),
    smaller v a b xs js ha hb small bytes low first later.1 rows.1 zeros.1,
  )

  -- Where the unknowns of the smaller matrix are 0, those of the matrix are.
  restored :
      (v : ℕ → ℕ) (a b : ℕ) (js : List ℕ)
      → a < r
      → b < k
      → All (λ j. v j < 256) js
      → All (λ j. j < k) js
      → All (λ j. suc b ≤ j) js
      → All (λ j. reduced r k room v a b j ≡ 0) js
      → All (λ j. v j ≡ 0) js
  unfolding reduced
  restored v a b [] ha hb bytes low later zeros = tt
  restored v a b (j ∷ js) ha hb bytes low later zeros =
      let (hq, two) = element r k room a j ha low.0 in
      let q = coefficient a j r in
      let d = add (r + b) (r + j) in
      let hd = add-byte (r + b) (r + j) (omega arith) (omega (arith, low.0)) in
      (
        zero_of_mul (v j) d bytes.0 hd
            (apart (r + b) (r + j) (λ e. absurd (omega (arith, later.0))))
            (zero_of_mul (mul (v j) d) q (mul-byte (v j) d bytes.0 hd) hq
              (λ e.
                absurd (omega (arith, two, ap (mul (add a (r + j))) e, mul_null (add a (r + j)))))
              zeros.0),
        restored v a b js ha hb bytes.1 low.1 later.1 zeros.1,
      )

  row_sum-zero : (v : ℕ → ℕ) (js : List ℕ) (x : ℕ) → All (λ j. v j ≡ 0) js → row_sum r v js x ≡ 0
  unfolding sum_over
  row_sum-zero v [] x h = refl
  row_sum-zero v (j ∷ js) x h =
      (λ i. add (mul (coefficient x j r) (h.0 i)) (row_sum-zero v js x h.1 i))
      ∙ ap (λ u. add u 0) (mul_null (coefficient x j r))
      ∙ add_self 0

  -- As many rows as columns, chosen at will: unknown bytes at the columns of which the sums of all
  -- rows are 0 are all 0.
  pub row_sum-regular :
      (v : ℕ → ℕ) (xs js : List ℕ) (m n : ℕ)
      → length xs ≡ length js
      → Ascends m xs
      → Ascends n js
      → All (λ x. x < r) xs
      → All (λ j. j < k) js
      → All (λ j. v j < 256) js
      → All (λ x. row_sum r v js x ≡ 0) xs
      → All (λ j. v j ≡ 0) js
  row_sum-regular v [] [] m n many up up' rows low bytes zeros = tt
  row_sum-regular v [] (b ∷ js) m n many up up' rows low bytes zeros = absurd (omega arith)
  row_sum-regular v (a ∷ xs) [] m n many up up' rows low bytes zeros = tt
  row_sum-regular v (a ∷ xs) (b ∷ js) m n many up up' rows low bytes zeros =
      let rest = restored v a b js rows.0 low.0 bytes.1 low.1 (Ascends-All (suc b) js up'.1) (
        row_sum-regular (reduced r k room v a b) xs js (suc a) (suc b) (omega arith) up.1 up'.1
          rows.1 low.1 (reduced-bytes r k room v a b js rows.0 low.0 bytes.1 low.1)
          (smaller v a b xs js rows.0 low.0 bytes.0 bytes.1 low.1 zeros.0
            (Ascends-All (suc a) xs up.1) rows.1 zeros.1)) in
      (
        lifted v a b js rows.0 low.0 bytes.0 bytes.1 low.1 zeros.0
            ∙ ap (mul (add a (r + b))) (row_sum-zero v js a rest)
            ∙ mul_null (add a (r + b)),
        rest,
      )
