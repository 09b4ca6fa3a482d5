-- ===== src/Fec/Field/Laws.antt =====
-- The laws of the field of src/fec/gf.rs.
use seam.Prelude.{
  ℕ, ◌+◌, ◌≤◌, ◌<◌, Bool, true, false, ◌||◌, ◌≡◌, ◌⊎◌, none, some, refl, sym, ap, ◌∙◌, arith, ◌==◌,
  Bool-cases, inl, inr, if◌then◌else◌,
}
use seam.Prelude.Bits.{bit_xor}
use seam.Fec.Field.{add, mul, inv, log_at, exp_at}
use seam.Fec.Field.Tables.{mul_one, mul-inv}
use seam.Fec.Field.Powers.{
  times, times-xor, times-mod, times_add, mul-times, xor-byte, log-mul, mul-range, mul_null,
  mul_nothing, mul-byte, log-byte,
}

pub mul_comm : (a b : ℕ) → mul a b ≡ mul b a
unfolding mul
mul_comm a b =
    swapped (a == 0) (b == 0) ∙ ap (λ n. if (b == 0) || (a == 0) then 0 else exp_at n) (omega arith)
  where
    swapped :
        (p q : Bool)
        → (if p || q then 0 else exp_at (log_at a + log_at b))
          ≡ (if q || p then 0 else exp_at (log_at a + log_at b))
    swapped true true = refl
    swapped true false = refl
    swapped false true = refl
    swapped false false = refl

pub mul-add : (a x y : ℕ) → a < 256 → x < 256 → y < 256 → mul a (add x y) ≡ add (mul a x) (mul a y)
unfolding add mul
mul-add a x y h k l = elim (Bool-cases (a == 0)) [
  | inl none_ ↦
      let zero_ : a ≡ 0 = ground arith in
      ap (λ c. mul c (bit_xor x y)) zero_ ∙ sym (ap (λ c. bit_xor (mul c x) (mul c y)) zero_)
  | inr some_ ↦
      let one : 1 ≤ a = ground arith in
      mul-times a (bit_xor x y) one h (xor-byte x y k l)
      ∙ times-xor (log_at a) x y k l
      ∙ ap (λ u. bit_xor u (times (log_at a) y)) (sym (mul-times a x one h k))
      ∙ ap (bit_xor (mul a x)) (sym (mul-times a y one h l))
]

pub mul-mul : (a b c : ℕ) → a < 256 → b < 256 → c < 256 → mul (mul a b) c ≡ mul a (mul b c)
mul-mul a b c h k l = elim (Bool-cases (a == 0)) [
  | inl none_ ↦
      ap (λ x. mul (mul x b) c) {y = 0} (ground arith)
      ∙ ap (λ x. mul x c) (mul_nothing b)
      ∙ mul_nothing c
      ∙ sym (mul_nothing (mul b c))
      ∙ ap (λ x. mul x (mul b c)) {x = 0} (ground arith)
  | inr some_ ↦ elim (Bool-cases (b == 0)) [
    | inl none_ ↦
        ap (λ x. mul (mul a x) c) {y = 0} (ground arith)
        ∙ ap (λ x. mul x c) (mul_null a)
        ∙ mul_nothing c
        ∙ sym (mul_null a)
        ∙ ap (mul a) (sym (mul_nothing c))
        ∙ ap (λ x. mul a (mul x c)) {x = 0} (ground arith)
    | inr more ↦ nonzero (ground arith) (ground arith)
  ]
]
  where
    nonzero : 1 ≤ a → 1 ≤ b → mul (mul a b) c ≡ mul a (mul b c)
    nonzero one two =
        let (positive, byte) = mul-range a b one h two k in
        mul-times (mul a b) c positive byte l
        ∙ ap (λ n. times n c) (log-mul a b one h two k)
        ∙ times-mod (log_at a + log_at b) c (omega (arith, log-byte a h, log-byte b k)) l
        ∙ times_add (log_at a) (log_at b) c
        ∙ ap (times (log_at a)) (sym (mul-times b c two k l))
        ∙ sym (mul-times a (mul b c) one h (mul-byte b c k l))

-- On bytes, multiplication distributes over addition, is associative and commutative, has the unit
-- 1, and every byte but 0 has an inverse, which `inv` gives; of 0 it gives none.
pub field_laws :
    (a b c : ℕ)
    → a < 256
    → b < 256
    → c < 256
    → (mul a (add b c) ≡ add (mul a b) (mul a c))
      × (mul (mul a b) c ≡ mul a (mul b c))
      × (mul a b ≡ mul b a)
      × (mul 1 a ≡ a)
      × (((a ≡ 0) × (inv a ≡ none)) ⊎ ((y : ℕ) × (inv a ≡ some y) × (mul a y ≡ 1)))
field_laws a b c h k l =
    (mul-add a b c h k l, mul-mul a b c h k l, mul_comm a b, mul_one a h, mul-inv a h)
