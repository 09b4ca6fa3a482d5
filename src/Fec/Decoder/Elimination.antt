-- ===== src/Fec/Decoder/Elimination.antt =====
-- `gauss_rhs` of src/fec/codec.rs, column by column.
use seam.Prelude.{
  ℕ, zero, suc, ◌+◌, ◌-◌, ◌≤◌, ◌<◌, ◌≡◌, inl, inr, some, refl, sym, ap, ◌∙◌, arith, ◌==◌,
  Bool-cases, get_or,
}
use seam.Fec.Field.{add, mul}
use seam.Fec.Field.Powers.{mul_null}
use seam.Fec.Field.Tables.{mul_one, mul-inv, inv-byte}
use seam.Fec.Field.Laws.{mul_comm}
use seam.Fec.Field.Sums.{dot_congr, add-zero, add_self, unit, unit_ne, total-unit}
use seam.Fec.Decoder.{Rows, entry, swap, scale_row, gauss_loop, gauss_rhs}
use seam.Fec.Decoder.Rows.{Shape, get_or-swap, swap_index}
use seam.Fec.Decoder.Clearing.{Cleared, multiplier, eliminate-Cleared}
use seam.Fec.Decoder.Equations.{
  Solved, swap-Solved, scale_row-Solved, Cleared-Solved, scaled_entry, weight,
}
use seam.Fec.Decoder.Pivots.{Units, find_pivot-some, pivot-exists}

module _ (k : ℕ) where
  unit_early : (col q i c : ℕ) → col ≤ q → c < col → unit (swap_index col q i) c ≡ unit i c
  unit_early col q i c h l = ground arith

  swap-Units :
      (col q : ℕ) (mat : Rows)
      → Shape k k mat
      → Units k col mat
      → col < k
      → col ≤ q
      → q < k
      → Units k col (swap col q mat)
  swap-Units col q mat s units h l m i c below early =
      ap (λ x. get_or x c 0)
        (get_or-swap col q i mat (omega (arith, s.size)) (omega (arith, s.size)))
      ∙ units (swap_index col q i) c (ground arith) early
      ∙ unit_early col q i c l early

  scale_row-Units :
      (col x : ℕ) (mat : Rows)
      → Shape k k mat
      → Units k col mat
      → col < k
      → Units k col (scale_row col x mat)
  scale_row-Units col x mat s units h i c below early =
      scaled_entry k k col x i c mat s h
      ∙ ap (mul (weight col x i)) (units i c below early)
      ∙ elim (Bool-cases (i == col)) [
        | inl same ↦
            ap (mul (weight col x i)) {y = 0} (ground arith)
            ∙ mul_null (weight col x i)
            ∙ ground arith
        | inr other ↦
            ap (λ y. mul y (unit i c)) {y = 1} (rw other refl) ∙ mul_one (unit i c) (ground arith)
      ]

  Cleared-Units :
      (w col : ℕ) (below : col < k) (mat mat' : Rows)
      → Shape k k mat
      → Units k col mat
      → entry mat col col ≡ 1
      → Cleared k w col below (multiplier col mat) k 0 k mat mat'
      → Units k (suc col) mat'
  Cleared-Units w col below mat mat' s units one c i t row early =
      c.at i t (omega arith) (omega arith) (omega arith) ∙ elim (Bool-cases (t == col)) [
        | inl last ↦
            let e : t ≡ col = ground arith in
            ap (λ u. add (entry mat i u) (mul (multiplier col mat i) (entry mat col u))) e
            ∙ ap (λ x. add (entry mat i col) (mul (multiplier col mat i) x)) one
            ∙ ap (add (entry mat i col)) (
                mul_comm (multiplier col mat i) 1
                ∙ mul_one (multiplier col mat i) (ground (arith, s.bytes i col)))
            ∙ elim (Bool-cases (i == col)) [
              | inl pivot ↦
                  let e : i ≡ col = ground arith in
                  ap (add (entry mat i col)) {y = 0} (ground arith)
                  ∙ add-zero (entry mat i col)
                  ∙ ap (λ u. entry mat u col) e
                  ∙ one
                  ∙ ground arith
              | inr other ↦
                  ap (add (entry mat i col)) {y = entry mat i col} (ground arith)
                  ∙ add_self (entry mat i col)
                  ∙ ground arith
            ]
        | inr before ↦
            ap (λ x. add (entry mat i t) (mul (multiplier col mat i) x))
              (units col t below (ground arith) ∙ unit_ne col t (ground arith))
            ∙ ap (add (entry mat i t)) (mul_null (multiplier col mat i))
            ∙ add-zero (entry mat i t)
            ∙ units i t row (ground arith)
      ]

module _ (k w : ℕ) (answer : ℕ → ℕ → ℕ) (small : (j p : ℕ) → answer j p < 256) where
  -- The columns that are left, from `col` on, are cleared without a panic, and the right-hand sides
  -- end as the answer.
  Answered : ℕ → ℕ → Rows → Rows → Type 0
  Answered n col mat rhs =
      (mat' : Rows) × (rhs' : Rows) × (gauss_loop k n col mat rhs ≡ some (some (mat', rhs')))
      × Shape k w rhs'
      × ((i p : ℕ) → i < k → p < w → entry rhs' i p ≡ answer i p)

  -- One column: a pivot is found, its row is scaled by its inverse, and the other rows are cleared.
  Column : ℕ → ℕ → Rows → Rows → Type 0
  Column n col mat rhs =
      (mat' : Rows) × (rhs' : Rows) × (gauss_loop k (suc n) col mat rhs
        ≡ gauss_loop k n (col + 1) mat' rhs')
      × Solved k w answer mat' rhs'
      × Units k (suc col) mat'

  gauss_loop-Column :
      (n col : ℕ) (mat rhs : Rows)
      → col < k
      → Solved k w answer mat rhs
      → Units k col mat
      → Column n col mat rhs
  unfolding Column gauss_loop
  gauss_loop-Column n col mat rhs below s units =
      let (q, found) = pivot-exists k w col answer small below mat rhs s units in
      let (after, inside, nonzero) = find_pivot-some mat col (k - col) col q found in
      let q_row : q < k = omega arith in
      let mat1 = swap col q mat in
      let rhs1 = swap col q rhs in
      let s1 = swap-Solved k w answer small col q mat rhs s below q_row in
      let units1 = swap-Units k col q mat s.left units below after q_row in
      let there : entry mat1 col col ≡ entry mat q col =
        ap (λ x. get_or x col 0)
          (get_or-swap col q col mat (omega (arith, s.left.size)) (omega (arith, s.left.size)))
        ∙ ap (λ u. entry mat u col) (ground arith) in
      let x = entry mat1 col col in
      elim (mul-inv x (s1.left.bytes col col)) [
        | inl (zero_, none_) ↦ absurd (nonzero (sym there ∙ zero_))
        | inr (c, inverse, product) ↦
            let byte = inv-byte x c (s1.left.bytes col col) inverse in
            let mat2 = scale_row col c mat1 in
            let rhs2 = scale_row col c rhs1 in
            let s2 =
              scale_row-Solved k w answer small col c mat1 rhs1 s1 below byte
                (λ e. absurd (omega (arith, product, ap (mul x) e, mul_null x))) in
            let units2 = scale_row-Units k col c mat1 s1.left units1 below in
            let one : entry mat2 col col ≡ 1 =
              scaled_entry k k col c col col mat1 s1.left below
              ∙ ap (λ y. mul y x) {y = c} (ground arith)
              ∙ mul_comm c x
              ∙ product in
            let f = multiplier col mat2 in
            let pivot : f col ≡ 0 = ground arith in
            let (mat3, rhs3, run, cleared, cleared') =
              eliminate-Cleared k w col below f k 0 mat2 rhs2 s2.left s2.right (omega arith) pivot
                (λ i l m. refl) in
            (
              mat3,
              rhs3,
              rw (found, gauss_loop) (rw inverse (rw run refl)),
              Cleared-Solved k w answer small col below f mat2 mat3 rhs2 rhs3 s2
                  (λ i. ground (arith, s2.left.bytes i col)) pivot cleared cleared',
              Cleared-Units k w col below mat2 mat3 s2.left units2 one cleared,
            )
      ]

  gauss_loop-Answered :
      (n col : ℕ) (mat rhs : Rows)
      → col + n ≡ k
      → Solved k w answer mat rhs
      → Units k col mat
      → Answered n col mat rhs
  unfolding Answered Column gauss_loop
  gauss_loop-Answered zero col mat rhs h s units = (
    mat,
    rhs,
    refl,
    s.right,
    (λ i p l m.
        s.solves i p l m
        ∙ dot_congr k (entry mat i) (unit i) (λ j. answer j p) (λ t b. units i t l (omega arith))
        ∙ total-unit k 0 i (λ j. answer j p) (λ j. small j p) (omega arith) (omega arith)),
  )
  gauss_loop-Answered (suc n) col mat rhs h s units =
      let (mat1, rhs1, step, s1, units1) = gauss_loop-Column n col mat rhs (omega arith) s units in
      let (mat2, rhs2, run, shape, right) =
        gauss_loop-Answered n (col + 1) mat1 rhs1 (omega arith) s1
          (λ i c l m. units1 i c l (omega arith)) in
      (mat2, rhs2, step ∙ run, shape, right)

  -- From a regular matrix of bytes and the right-hand sides of a set of equations, Gaussian
  -- elimination comes to an end without a panic or a refusal, and what it leaves of the right-hand
  -- sides is the solution.
  pub gauss_rhs-solves :
      (mat rhs : Rows)
      → Solved k w answer mat rhs
      → (mat' : Rows) × (rhs' : Rows) × (gauss_rhs mat rhs k ≡ some (some (mat', rhs')))
        × Shape k w rhs'
        × ((i p : ℕ) → i < k → p < w → entry rhs' i p ≡ answer i p)
  unfolding Answered gauss_rhs
  gauss_rhs-solves mat rhs s =
      gauss_loop-Answered k 0 mat rhs (omega arith) s (λ i c l m. absurd (omega arith))
