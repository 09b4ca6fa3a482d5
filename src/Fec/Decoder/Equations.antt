-- ===== src/Fec/Decoder/Equations.antt =====
-- The equations that the rows of `gauss_rhs` in src/fec/codec.rs stand for, through its row operations.
use seam.Prelude.{
  ℕ, ◌<◌, [], ◌≡◌, ◌≢◌, inl, inr, sym, ap, ◌∙◌, arith, ◌==◌, if◌then◌else◌, Bool-cases, get_or,
  get_or-set_self, get_or-set_ne,
}
use seam.Fec.Field.{add, mul}
use seam.Fec.Field.Powers.{mul_null, mul_nothing}
use seam.Fec.Field.Tables.{mul_one}
use seam.Fec.Field.Laws.{mul_comm}
use seam.Fec.Field.Sums.{Bytes, dot, dot_congr, dot-byte, mul-dot, dot-add, add-zero, zero_of_mul}
use seam.Fec.Decoder.{Rows, entry, swap, scale_row, scale}
use seam.Fec.Decoder.Rows.{
  Shape, swap_index, get_or-swap, swap-Shape, scale_row-Shape, get_or-scale,
}
use seam.Fec.Decoder.Clearing.{Cleared}

-- The columns `answer j` of bytes solve `mat · answer = rhs`, and are the only ones that do: `mat`
-- takes no other column than that of zeros to zeros.
pub record Solved (k w : ℕ) (answer : ℕ → ℕ → ℕ) (mat rhs : Rows) : Type 0 where
  pub left : Shape k k mat
  pub right : Shape k w rhs
  pub solves : (i p : ℕ) → i < k → p < w → entry rhs i p ≡ dot k (entry mat i) (λ j. answer j p)
  pub regular :
      (v : ℕ → ℕ)
      → Bytes v
      → ((i : ℕ) → i < k → dot k (entry mat i) v ≡ 0)
      → (j : ℕ) → j < k
      → v j ≡ 0

swap_index-lt : (k a b t : ℕ) → a < k → b < k → t < k → swap_index a b t < k
swap_index-lt k a b t h l m = ground arith

swap_index-twice : (a b t : ℕ) → swap_index a b (swap_index a b t) ≡ t
swap_index-twice a b t = ground arith

-- A scaled row is the product by a byte that is not 0, and the other rows are that by 1.
abbrev pub weight : ℕ → ℕ → ℕ → ℕ
weight col c i = if i == col then c else 1

weight-byte : (col c i : ℕ) → c < 256 → weight col c i < 256
weight-byte col c i h = ground arith

weight-nonzero : (col c i : ℕ) → c ≢ 0 → weight col c i ≢ 0
weight-nonzero col c i h e = ground arith

pub scaled_entry :
    (k n col c i p : ℕ) (rows : Rows)
    → Shape k n rows
    → col < k
    → entry (scale_row col c rows) i p ≡ mul (weight col c i) (entry rows i p)
scaled_entry k n col c i p rows s h = elim (Bool-cases (i == col)) [
  | inl same ↦
      let e : col ≡ i = ground arith in
      rw same (
        ap (λ u. entry (scale_row col c rows) u p) (sym e)
        ∙ ap (λ x. get_or x p 0)
            (get_or-set_self rows col (scale c (get_or rows col [])) [] (omega (arith, s.size)))
        ∙ get_or-scale c p (get_or rows col [])
        ∙ mul_comm (entry rows col p) c
        ∙ ap (λ u. mul c (entry rows u p)) e)
  | inr other ↦ rw other (
      ap (λ x. get_or x p 0)
        (get_or-set_ne rows col i (scale c (get_or rows col [])) [] (ground arith))
      ∙ sym (mul_one (entry rows i p) (s.bytes i p)))
]

module _ (k w : ℕ) (answer : ℕ → ℕ → ℕ) (small : (j p : ℕ) → answer j p < 256) where
  pub swap-Solved :
      (a b : ℕ) (mat rhs : Rows)
      → Solved k w answer mat rhs
      → a < k
      → b < k
      → Solved k w answer (swap a b mat) (swap a b rhs)
  swap-Solved a b mat rhs s h l =
      let from = λ (t : ℕ).
        get_or-swap a b t mat (omega (arith, s.left.size)) (omega (arith, s.left.size)) in
      record {
        left = swap-Shape k k a b mat s.left h l;
        right = swap-Shape k w a b rhs s.right h l;
        solves = λ i p m n.
            ap (λ x. get_or x p 0)
              (get_or-swap a b i rhs (omega (arith, s.right.size)) (omega (arith, s.right.size)))
            ∙ s.solves (swap_index a b i) p (swap_index-lt k a b i h l m) n
            ∙ ap (λ x. dot k (λ t. get_or x t 0) (λ j. answer j p)) (sym (from i));
        regular = λ v bytes zeros. s.regular v bytes (λ i m.
            ap (λ u. dot k (entry mat u) v) (sym (swap_index-twice a b i))
            ∙ ap (λ x. dot k (λ t. get_or x t 0) v) (sym (from (swap_index a b i)))
            ∙ zeros (swap_index a b i) (swap_index-lt k a b i h l m));
      }

  pub scale_row-Solved :
      (col c : ℕ) (mat rhs : Rows)
      → Solved k w answer mat rhs
      → col < k
      → c < 256
      → c ≢ 0
      → Solved k w answer (scale_row col c mat) (scale_row col c rhs)
  scale_row-Solved col c mat rhs s h b n =
      let scaled_dot = λ (v : ℕ → ℕ) (bytes : Bytes v) (i : ℕ).
        dot_congr k (entry (scale_row col c mat) i) (λ t. mul (weight col c i) (entry mat i t)) v
          (λ t l. scaled_entry k k col c i t mat s.left h)
        ∙ mul-dot (weight col c i) k (entry mat i) v (weight-byte col c i b) (s.left.bytes i)
            bytes in
      record {
        left = scale_row-Shape k k col c mat s.left h b;
        right = scale_row-Shape k w col c rhs s.right h b;
        solves = λ i p m l.
            scaled_entry k w col c i p rhs s.right h
            ∙ ap (mul (weight col c i)) (s.solves i p m l)
            ∙ sym (scaled_dot (λ j. answer j p) (λ j. small j p) i);
        regular = λ v bytes zeros. s.regular v bytes (λ i m.
            zero_of_mul (dot k (entry mat i) v) (weight col c i)
              (dot-byte k (entry mat i) v (s.left.bytes i) bytes) (weight-byte col c i b)
              (weight-nonzero col c i n)
              (mul_comm (dot k (entry mat i) v) (weight col c i)
                ∙ sym (scaled_dot v bytes i)
                ∙ zeros i m));
      }

  pub Cleared-Solved :
      (col : ℕ) (below : col < k) (f : ℕ → ℕ) (mat mat' rhs rhs' : Rows)
      → Solved k w answer mat rhs
      → Bytes f
      → f col ≡ 0
      → Cleared k w col below f k 0 k mat mat'
      → Cleared k w col below f k 0 w rhs rhs'
      → Solved k w answer mat' rhs'
  Cleared-Solved col below f mat mat' rhs rhs' s b pivot c d =
      let summed = λ (v : ℕ → ℕ) (bytes : Bytes v) (i : ℕ) (m : i < k).
        dot_congr k (entry mat' i) (λ t. add (entry mat i t) (mul (f i) (entry mat col t))) v
          (λ t l. c.at i t (omega arith) (omega arith) l)
        ∙ dot-add (f i) k (entry mat i) (entry mat col) v (b i) (s.left.bytes i) (s.left.bytes col)
            bytes in
      let without = λ (x y : ℕ). ap (add x) (mul_null y) ∙ add-zero x in
      record {
        left = c.shape;
        right = d.shape;
        solves = λ i p m l.
            d.at i p (omega arith) (omega arith) l
            ∙ ap (λ x. add x (mul (f i) (entry rhs col p))) (s.solves i p m l)
            ∙ ap (λ x. add (dot k (entry mat i) (λ j. answer j p)) (mul (f i) x))
                (s.solves col p below l)
            ∙ sym (summed (λ j. answer j p) (λ j. small j p) i m);
        regular = λ v bytes zeros.
            let row_col : dot k (entry mat col) v ≡ 0 =
              sym (add-zero (dot k (entry mat col) v))
              ∙ ap (add (dot k (entry mat col) v)) (
                  sym (mul_nothing (dot k (entry mat col) v))
                  ∙ ap (λ x. mul x (dot k (entry mat col) v)) (sym pivot))
              ∙ sym (summed v bytes col below)
              ∙ zeros col below in
            s.regular v bytes (λ i m.
              sym (without (dot k (entry mat i) v) (f i))
              ∙ ap (λ x. add (dot k (entry mat i) v) (mul (f i) x)) (sym row_col)
              ∙ sym (summed v bytes i m)
              ∙ zeros i m);
      }
