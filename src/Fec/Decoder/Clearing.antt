-- ===== src/Fec/Decoder/Clearing.antt =====
-- The loop over the other rows in `gauss_rhs` of src/fec/codec.rs.
use seam.Prelude.{
  ℕ, zero, suc, ◌+◌, ◌≤◌, ◌<◌, [], ◌≡◌, inl, inr, some, refl, sym, ap, ◌∙◌, arith, ◌==◌,
  if◌then◌else◌, Bool-cases, get_or, set,
}
use mathlib.Core.Path.{subst}
use seam.Fec.Field.{add, mul}
use seam.Fec.Field.Powers.{mul_nothing}
use seam.Fec.Field.Slices.{mul_add_slice-at}
use seam.Fec.Field.Sums.{add-zero}
use seam.Fec.Decoder.{Rows, entry, add_row, eliminate}
use seam.Fec.Decoder.Rows.{Shape, AddsRow, unchanged, written, length-add_row, add_row-at}

-- The multiple of the pivot row that the row `r` is given.
abbrev pub multiplier : ℕ → Rows → ℕ → ℕ
multiplier col mat r = if r == col then 0 else entry mat r col

module _ (k w col : ℕ) (below : col < k) where
  -- One round of the loop.
  Round : ℕ → ℕ → Rows → Rows → Type 0
  Round n r mat rhs =
      (mat1 : Rows) × (rhs1 : Rows) × (eliminate col (suc n) r mat rhs
        ≡ eliminate col n (r + 1) mat1 rhs1)
      × AddsRow k k col (multiplier col mat r) r mat mat1
      × AddsRow k w col (multiplier col mat r) r rhs rhs1

  eliminate-Round :
      (n r : ℕ) (mat rhs : Rows) → Shape k k mat → Shape k w rhs → r < k → Round n r mat rhs
  unfolding Round eliminate
  eliminate-Round n r mat rhs s t h = elim (Bool-cases (r == col)) [
    | inl pivot ↦ (
      mat,
      rhs,
      rw (pivot, eliminate) refl,
      rw pivot (unchanged k k col r mat s),
      rw pivot (unchanged k w col r rhs t),
    )
    | inr other ↦ elim (Bool-cases (entry mat r col == 0)) [
      | inl zero_ ↦
          let none_ : entry mat r col ≡ 0 = ground arith in
          (
            mat,
            rhs,
            rw (other, eliminate) (rw zero_ refl),
            rw other (rw none_ (unchanged k k col r mat s)),
            rw other (rw none_ (unchanged k w col r rhs t)),
          )
      | inr some_ ↦
          let factor = entry mat r col in
          let src = get_or mat col [] in
          let dst = get_or mat r [] in
          let from = get_or rhs col [] in
          let to = get_or rhs r [] in
          let (row, made, same, at) =
            mul_add_slice-at to from factor (omega (arith, t.wide r h, t.wide col below))
              (t.bytes col) in
          (
            set mat r (add_row factor dst src),
            set rhs r row,
            rw (other, eliminate) (rw some_ (rw made refl)),
            rw other (
                written k k col factor r mat (add_row factor dst src) s h (s.bytes r col)
                  (length-add_row factor dst src ∙ s.wide r h)
                  (λ p l.
                    add_row-at factor dst src p (omega (arith, s.wide r h, s.wide col below))
                      (omega (arith, s.wide r h)))),
            rw other (
                written k w col factor r rhs row t h (s.bytes r col) (same ∙ t.wide r h)
                  (λ p l. at p (omega (arith, t.wide r h)))),
          )
    ]
  ]

  -- To each of the `n` rows from `r` on, its multiple of the pivot row is added; those before are kept.
  pub record Cleared (f : ℕ → ℕ) (n r v : ℕ) (rows rows' : Rows) : Type 0 where
    pub shape : Shape k v rows'
    pub at :
        (i p : ℕ)
        → r ≤ i
        → i < r + n
        → p < v
        → entry rows' i p ≡ add (entry rows i p) (mul (f i) (entry rows col p))
    pub before : (i : ℕ) → i < r → get_or rows' i [] ≡ get_or rows i []

  Cleared-none : (f : ℕ → ℕ) (r v : ℕ) (rows : Rows) → Shape k v rows → Cleared f 0 r v rows rows
  Cleared-none f r v rows s = record {
    shape = s;
    at = λ i p h l m. absurd (omega arith);
    before = λ i h. refl;
  }

  -- The pivot row is as before, entry by entry, after a round.
  pivot_kept :
      (f v r : ℕ) (rows rows1 : Rows)
      → (r ≡ col → f ≡ 0)
      → AddsRow k v col f r rows rows1
      → (p : ℕ) → p < v
      → entry rows1 col p ≡ entry rows col p
  pivot_kept f v r rows rows1 pivot a p h = elim (Bool-cases (r == col)) [
    | inl same ↦
        let e : r ≡ col = ground arith in
        ap (λ u. entry rows1 u p) (sym e)
        ∙ a.at p h
        ∙ ap (λ c. add (entry rows r p) (mul c (entry rows col p))) (pivot e)
        ∙ ap (add (entry rows r p)) (mul_nothing (entry rows col p))
        ∙ add-zero (entry rows r p)
        ∙ ap (λ u. entry rows u p) e
    | inr other ↦ ap (λ x. get_or x p 0) (a.others col (ground arith))
  ]

  Cleared-more :
      (f : ℕ → ℕ) (n r v : ℕ) (rows rows1 rows' : Rows)
      → f col ≡ 0
      → AddsRow k v col (f r) r rows rows1
      → Cleared f n (r + 1) v rows1 rows'
      → Cleared f (suc n) r v rows rows'
  Cleared-more f n r v rows rows1 rows' pivot a c = record {
    shape = c.shape;
    at = λ i p h l m. elim (Bool-cases (i == r)) [
      | inl same ↦
          let e : i ≡ r = ground arith in
          ap (λ x. get_or x p 0) (c.before i (omega arith))
          ∙ ap (λ u. entry rows1 u p) e
          ∙ a.at p m
          ∙ ap (λ u. add (entry rows u p) (mul (f u) (entry rows col p))) (sym e)
      | inr later ↦
          c.at i p (ground arith) (omega arith) m
          ∙ ap (λ x. add (get_or x p 0) (mul (f i) (entry rows1 col p))) (a.others i (ground arith))
          ∙ ap (λ x. add (entry rows i p) (mul (f i) x))
              (pivot_kept (f r) v r rows rows1 (λ e. ap f e ∙ pivot) a p m)
    ];
    before = λ i h. c.before i (omega arith) ∙ a.others i (λ e. absurd (omega arith));
  }

  -- The loop, whose multiples are those that the rows have in the pivot's column.
  pub eliminate-Cleared :
      (f : ℕ → ℕ) (n r : ℕ) (mat rhs : Rows)
      → Shape k k mat
      → Shape k w rhs
      → r + n ≤ k
      → f col ≡ 0
      → ((i : ℕ) → r ≤ i → i < k → f i ≡ multiplier col mat i)
      → (mat' : Rows) × (rhs' : Rows) × (eliminate col n r mat rhs ≡ some (mat', rhs'))
        × Cleared f n r k mat mat'
        × Cleared f n r w rhs rhs'
  unfolding Round eliminate
  eliminate-Cleared f zero r mat rhs s t h pivot same =
      (mat, rhs, refl, Cleared-none f r k mat s, Cleared-none f r w rhs t)
  eliminate-Cleared f (suc n) r mat rhs s t h pivot same =
      let (mat1, rhs1, step, a, b) = eliminate-Round n r mat rhs s t (omega arith) in
      let factor = same r (omega arith) (omega arith) in
      let a' = subst (λ c. AddsRow k k col c r mat mat1) (sym factor) a in
      let b' = subst (λ c. AddsRow k w col c r rhs rhs1) (sym factor) b in
      let (mat', rhs', run, c, d) =
        eliminate-Cleared f n (r + 1) mat1 rhs1 a.shape b.shape (omega arith) pivot (λ i l m.
          same i (omega arith) m
          ∙ ap (λ x. if i == col then 0 else get_or x col 0)
              (sym (a.others i (λ e. absurd (omega arith))))) in
      (
        mat',
        rhs',
        step ∙ run,
        Cleared-more f n r k mat mat1 mat' pivot a' c,
        Cleared-more f n r w rhs rhs1 rhs' pivot b' d,
      )
