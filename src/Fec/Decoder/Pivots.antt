-- ===== src/Fec/Decoder/Pivots.antt =====
-- The search for a pivot in `gauss_rhs` of src/fec/codec.rs, which succeeds on a regular matrix.
use seam.Prelude.{
  ℕ, zero, suc, ◌+◌, ◌-◌, ◌≤◌, ◌<◌, ◌≡◌, ◌≢◌, inl, inr, none, some, refl, ap, ◌∙◌, arith, ◌==◌, ltb,
  if◌then◌else◌, Bool-cases, Option-cases,
}
use seam.Fec.Field.{add, mul}
use seam.Fec.Field.Powers.{mul_null, mul_nothing}
use seam.Fec.Field.Tables.{mul_one}
use seam.Fec.Field.Laws.{mul_comm}
use seam.Fec.Field.Sums.{Bytes, total, add-zero, zero-add, add_self, unit}
use seam.Fec.Decoder.{Rows, entry, find_pivot}
use seam.Fec.Decoder.Rows.{Shape}
use seam.Fec.Decoder.Equations.{Solved}

pub find_pivot-some :
    (mat : Rows) (col n r q : ℕ)
    → find_pivot mat col n r ≡ some q
    → (r ≤ q) × (q < r + n) × (entry mat q col ≢ 0)
unfolding find_pivot
find_pivot-some mat col zero r q h = absurd (ground arith)
find_pivot-some mat col (suc n) r q h = elim (Bool-cases (entry mat r col == 0)) [
  | inl zero_ ↦
      let (a, b, c) = find_pivot-some mat col n (r + 1) q (ground arith) in
      (omega arith, omega arith, c)
  | inr some_ ↦
      let e : r ≡ q = ground arith in
      (omega arith, omega arith, λ z. absurd (ground (arith, ap (λ u. entry mat u col) e)))
]

find_pivot-none :
    (mat : Rows) (col n r : ℕ)
    → find_pivot mat col n r ≡ none
    → (i : ℕ) → r ≤ i
    → i < r + n
    → entry mat i col ≡ 0
unfolding find_pivot
find_pivot-none mat col zero r h i l m = absurd (omega arith)
find_pivot-none mat col (suc n) r h i l m = elim (Bool-cases (i == r)) [
  | inl here ↦ ap (λ u. entry mat u col) {x = i} {y = r} (ground arith) ∙ ground arith
  | inr later ↦ find_pivot-none mat col n (r + 1) (ground arith) i (ground arith) (omega arith)
]

-- The columns before `col` are those of the unit matrix.
abbrev pub Units : ℕ → ℕ → Rows → Type 0
Units k col mat = (i c : ℕ) → i < k → c < col → entry mat i c ≡ unit i c

module _ (k w col : ℕ) (answer : ℕ → ℕ → ℕ) (small : (j p : ℕ) → answer j p < 256)
    (below : col < k) where
  -- A column that is taken to zeros, if no row from `col` on has an entry in the column `col`.
  blocked : Rows → ℕ → ℕ
  blocked mat t = if ltb t col then entry mat t col else if t == col then 1 else 0

  blocked-byte : (mat : Rows) → Shape k k mat → Bytes (blocked mat)
  unfolding blocked
  blocked-byte mat s t = ground (arith, s.bytes t col)

  left_over : Rows → ℕ → ℕ → ℕ
  left_over mat i j = if ltb col j then 0 else if ltb i j then entry mat i col else 0

  module _ (mat : Rows) (s : Shape k k mat) (units : Units k col mat)
      (none_ : (i : ℕ) → col ≤ i → i < k → entry mat i col ≡ 0) (i : ℕ) (row : i < k) where
    values :
        (m v l j : ℕ)
        → entry mat i j ≡ m
        → blocked mat j ≡ v
        → left_over mat i (j + 1) ≡ l
        → add (mul (entry mat i j) (blocked mat j)) (left_over mat i (j + 1)) ≡ add (mul m v) l
    values m v l j a b c = λ t. add (mul (a t) (b t)) (c t)

    blocked_term :
        (j : ℕ)
        → j < k
        → add (mul (entry mat i j) (blocked mat j)) (left_over mat i (j + 1)) ≡ left_over mat i j
    unfolding blocked left_over
    blocked_term j h = elim (Bool-cases (ltb j col)) [
      | inl before ↦ elim (Bool-cases (i == j)) [
        | inl same ↦
            let e : j ≡ i = ground arith in
            let x = entry mat i col in
            values 1 x x j (units i j row (ground arith) ∙ ground arith)
              (rw before (ap (λ u. entry mat u col) e)) (ground arith)
            ∙ ap (λ y. add y x) (mul_one x (s.bytes i col))
            ∙ add_self x
            ∙ ground arith
        | inr other ↦
            values 0 (blocked mat j) (left_over mat i j) j
              (units i j row (ground arith) ∙ ground arith) refl (ground arith)
            ∙ ap (λ y. add y (left_over mat i j)) (mul_nothing (blocked mat j))
            ∙ zero-add (left_over mat i j)
      ]
      | inr from ↦ elim (Bool-cases (j == col)) [
        | inl here ↦
            let e : j ≡ col = ground arith in
            let x = entry mat i col in
            values x 1 0 j (ap (entry mat i) e) (rw from (rw here refl)) (ground arith)
            ∙ ap (λ y. add y 0) (mul_comm x 1 ∙ mul_one x (s.bytes i col))
            ∙ add-zero x
            ∙ elim (Bool-cases (ltb i col)) [
              | inl above ↦ ground arith
              | inr at_or_below ↦ none_ i (ground arith) row ∙ ground arith
            ]
        | inr after ↦
            values (entry mat i j) 0 0 j refl (rw from (rw after refl)) (ground arith)
            ∙ ap (λ y. add y 0) (mul_null (entry mat i j))
            ∙ add_self 0
            ∙ ground arith
      ]
    ]

    blocked_zeros :
        (n j : ℕ)
        → j + n ≡ k
        → total n j (λ t. mul (entry mat i t) (blocked mat t)) ≡ left_over mat i j
    unfolding total left_over
    blocked_zeros zero j h = ground arith
    blocked_zeros (suc n) j h =
        ap (add (mul (entry mat i j) (blocked mat j))) (blocked_zeros n (j + 1) (omega arith))
        ∙ blocked_term j (omega arith)

  -- So a matrix that is regular has a pivot.
  pub pivot-exists :
      (mat rhs : Rows)
      → Solved k w answer mat rhs
      → Units k col mat
      → (q : ℕ) × (find_pivot mat col (k - col) col ≡ some q)
  unfolding left_over blocked
  pivot-exists mat rhs s units = elim (Option-cases (find_pivot mat col (k - col) col)) [
    | inr found ↦ found
    | inl none_ ↦ absurd (
        ground (
          arith,
          s.regular (blocked mat) (blocked-byte mat s.left)
              (λ i h.
                blocked_zeros mat s.left units
                  (λ t l m. find_pivot-none mat col (k - col) col none_ t l (omega arith)) i h k 0
                  (omega arith)
                ∙ ground arith)
              col below,
        ))
  ]
