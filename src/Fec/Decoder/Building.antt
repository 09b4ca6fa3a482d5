-- ===== src/Fec/Decoder/Building.antt =====
-- The equations that `try_recover` of src/fec/codec.rs sets up.
use seam.Prelude.{
  ℕ, zero, suc, ◌+◌, ◌≤◌, ◌<◌, List, [], ◌∷◌, ◌≡◌, ◌⊎◌, inl, inr, some, refl, sym, ap, ◌∙◌, arith,
  ◌==◌, ltb, true, false, Bool-cases, length, get_or, set, replicate, length-set, length-replicate,
  get_or-replicate, get_or-set_self, get_or-set_ne, get_or_beyond,
}
use seam.Fec.Field.{add, mul}
use seam.Fec.Field.Sums.{
  Bytes, total, dot, dot_congr, unit, total-unit, add_assoc, add-zero, zero-add, dot-byte,
}
use seam.Fec.Encoder.{cauchy}
use seam.Fec.Encoder.Repairs.{weighted, coefficient, coefficient_lem, cauchy-some}
use seam.Fec.Encoder.Cauchy.{element}
use seam.Fec.Decoder.{Rows, entry, cauchy_row}
use seam.Fec.Decoder.Rows.{Shape}

pub weighted-total :
    (i r n j : ℕ) (sources : Rows) (p acc : ℕ)
    → weighted i r n j sources p acc
      ≡ add acc (total n j (λ t. mul (coefficient i t r) (entry sources t p)))
unfolding total
weighted-total i r zero j sources p acc = sym (add-zero acc)
weighted-total i r (suc n) j sources p acc =
    weighted-total i r n (j + 1) sources p (add acc (mul (coefficient i j r) (entry sources j p)))
    ∙ add_assoc acc (mul (coefficient i j r) (entry sources j p))
        (total n (j + 1) (λ t. mul (coefficient i t r) (entry sources t p)))

-- The bytes `contents` are those of the repair symbol `x` of the sources.
pub record IsRepair (k r w : ℕ) (sources : Rows) (x : ℕ) (contents : List ℕ) : Type 0 where
  pub below : x < r
  pub size : length contents ≡ w
  pub at : (p : ℕ) → p < w → get_or contents p 0 ≡ weighted x r k 0 sources p 0

-- A row of the matrix and its right-hand side, which the sources satisfy.
pub record RowRight (k w : ℕ) (sources : Rows) (row contents : List ℕ) : Type 0 where
  pub long : length row ≡ k
  pub row_bytes : (t : ℕ) → get_or row t 0 < 256
  pub size : length contents ≡ w
  pub bytes : (p : ℕ) → get_or contents p 0 < 256
  pub solves :
      (p : ℕ) → p < w → get_or contents p 0 ≡ dot k (λ t. get_or row t 0) (λ j. entry sources j p)

get_or-unit : (k c t : ℕ) → c < k → get_or (set (replicate k 0) c 1) t 0 ≡ unit c t
get_or-unit k c t h = elim (Bool-cases (c == t)) [
  | inl same ↦
      let e : c ≡ t = ground arith in
      ap (λ u. get_or (set (replicate k 0) c 1) u 0) (sym e)
      ∙ get_or-set_self (replicate k 0) c 1 0 (omega (arith, length-replicate {A = ℕ} k 0))
      ∙ ground arith
  | inr other ↦
      get_or-set_ne (replicate k 0) c t 1 0 (ground arith)
      ∙ get_or-replicate {A = ℕ} k t 0
      ∙ ground arith
]

pub dot-unit :
    (k c : ℕ) (v : ℕ → ℕ)
    → Bytes v
    → c < k
    → dot k (λ t. get_or (set (replicate k 0) c 1) t 0) v ≡ v c
dot-unit k c v b h =
    dot_congr k (λ t. get_or (set (replicate k 0) c 1) t 0) (unit c) v (λ t l. get_or-unit k c t h)
    ∙ total-unit k 0 c v b (omega arith) (omega arith)

pub unit-RowRight :
    (k w : ℕ) (sources : Rows) (c : ℕ)
    → Shape k w sources
    → c < k
    → RowRight k w sources (set (replicate k 0) c 1) (get_or sources c [])
unit-RowRight k w sources c s h = record {
  long = length-set (replicate k 0) c 1 ∙ length-replicate {A = ℕ} k 0;
  row_bytes = λ t. ground (arith, get_or-unit k c t h);
  size = s.wide c h;
  bytes = s.bytes c;
  solves = λ p l. sym (dot-unit k c (λ j. entry sources j p) (λ j. s.bytes j p) h);
}

pub cauchy_row-some :
    (x r n j : ℕ)
    → x < r
    → r + j + n ≤ 256
    → (row : List ℕ) × (cauchy_row x r n j ≡ some row)
      × (length row ≡ n)
      × ((t : ℕ) → t < n → get_or row t 0 ≡ coefficient x (j + t) r)
unfolding cauchy_row
cauchy_row-some x r zero j h l = ([], refl, refl, λ t m. absurd (omega arith))
cauchy_row-some x r (suc n) j h l =
    let (c, made) = cauchy-some x j r h (omega arith) in
    let (row, rest, many, at) = cauchy_row-some x r n (j + 1) h (omega arith) in
    (c ∷ row, rw (made, cauchy_row) (rw rest refl), omega (arith, many), place c row made at)
  where
    place :
        (c : ℕ) (row : List ℕ)
        → cauchy x j r ≡ some c
        → ((t : ℕ) → t < n → get_or row t 0 ≡ coefficient x (j + 1 + t) r)
        → (t : ℕ) → t < suc n
        → get_or (c ∷ row) t 0 ≡ coefficient x (j + t) r
    place c row made at zero m =
        sym (coefficient_lem x j r c made) ∙ ap (λ u. coefficient x u r) (omega arith)
    place c row made at (suc t) m = at t (omega arith) ∙ ap (λ u. coefficient x u r) (omega arith)

pub cauchy-RowRight :
    (k r w : ℕ) (sources : Rows) (x : ℕ) (row contents : List ℕ)
    → r + k ≤ 256
    → Shape k w sources
    → IsRepair k r w sources x contents
    → length row ≡ k
    → ((t : ℕ) → t < k → get_or row t 0 ≡ coefficient x t r)
    → RowRight k w sources row contents
cauchy-RowRight k r w sources x row contents room s d long at =
    let row_bytes = λ (t : ℕ). byte t (Bool-cases (ltb t k)) in
    let same = λ (p : ℕ) (l : p < w).
      d.at p l
      ∙ weighted-total x r k 0 sources p 0
      ∙ zero-add (dot k (λ t. coefficient x t r) (λ j. entry sources j p))
      ∙ sym (
          dot_congr k (λ t. get_or row t 0) (λ t. coefficient x t r) (λ j. entry sources j p) at) in
    record {
      long = long;
      row_bytes = row_bytes;
      size = d.size;
      bytes = λ p. elim (Bool-cases (ltb p w)) [
        | inl within ↦ omega (
          arith,
          same p (ground arith),
          dot-byte k (λ t. get_or row t 0) (λ j. entry sources j p) row_bytes (λ j. s.bytes j p),
        )
        | inr beyond ↦ omega (arith, get_or_beyond contents p 0 (ground (arith, d.size)))
      ];
      solves = same;
    }
  where
    byte : (t : ℕ) → (ltb t k ≡ true) ⊎ (ltb t k ≡ false) → get_or row t 0 < 256
    byte t (inl within) =
        omega (arith, at t (ground arith), (element r k room x t d.below (ground arith)).0)
    byte t (inr beyond) = omega (arith, get_or_beyond row t 0 (ground arith))
