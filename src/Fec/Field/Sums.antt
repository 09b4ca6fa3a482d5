-- ===== src/Fec/Field/Sums.antt =====
-- Sums in the field of src/fec/gf.rs, and the laws of its addition.
use seam.Prelude.{
  ℕ, zero, suc, ◌+◌, ◌≤◌, ◌<◌, ◌≡◌, ◌≢◌, inl, inr, refl, sym, ap, ◌∙◌, arith, ◌==◌, if◌then◌else◌,
  Bool-cases,
}
use seam.Prelude.Bits.{bit_xor}
use seam.Prelude.Xor.{bit_xor-zero, bit_xor_comm, bit_xor_assoc, bit_xor-cancel}
use seam.Fec.Field.{add, mul}
use seam.Fec.Field.Tables.{mul_one, mul-inv, inv-byte}
use seam.Fec.Field.Powers.{xor-byte, mul-byte, mul_null, mul_nothing}
use seam.Fec.Field.Laws.{mul_comm, mul-add, mul-mul}

pub add_lem : (a b : ℕ) → bit_xor a b ≡ add a b
unfolding add
add_lem a b = refl

pub add_comm : (a b : ℕ) → add a b ≡ add b a
unfolding add
add_comm = bit_xor_comm

pub add_assoc : (a b c : ℕ) → add (add a b) c ≡ add a (add b c)
unfolding add
add_assoc = bit_xor_assoc

pub add-zero : (a : ℕ) → add a 0 ≡ a
unfolding add
add-zero = bit_xor-zero

pub zero-add : (a : ℕ) → add 0 a ≡ a
zero-add a = add_comm 0 a ∙ add-zero a

pub add-cancel : (a b : ℕ) → add (add a b) b ≡ a
unfolding add
add-cancel = bit_xor-cancel

pub add_self : (a : ℕ) → add a a ≡ 0
add_self a = ap (λ x. add x a) (sym (zero-add a)) ∙ add-cancel 0 a

pub equal_of_add : (a b : ℕ) → add a b ≡ 0 → a ≡ b
equal_of_add a b h = sym (add-cancel a b) ∙ ap (λ x. add x b) h ∙ zero-add b

pub add-byte : (a b : ℕ) → a < 256 → b < 256 → add a b < 256
unfolding add
add-byte = xor-byte

pub add_interchange : (a b c d : ℕ) → add (add a b) (add c d) ≡ add (add a c) (add b d)
add_interchange a b c d =
    add_assoc a b (add c d)
    ∙ ap (add a) (sym (add_assoc b c d) ∙ ap (λ x. add x d) (add_comm b c) ∙ add_assoc c b d)
    ∙ sym (add_assoc a c (add b d))

-- A product that is 0 with a factor that is not 0.
pub zero_of_mul : (a c : ℕ) → a < 256 → c < 256 → c ≢ 0 → mul a c ≡ 0 → a ≡ 0
zero_of_mul a c h k n e = elim (mul-inv c k) [
  | inl (z, none_) ↦ absurd (n z)
  | inr (y, some_, one) ↦
      sym (mul_one a h)
      ∙ mul_comm 1 a
      ∙ ap (mul a) (sym one)
      ∙ sym (mul-mul a c y h k (inv-byte c y k some_))
      ∙ ap (λ x. mul x y) e
      ∙ mul_nothing y
]

-- `f j`, and so on, `n` terms.
unfoldable pub total : ℕ → ℕ → (ℕ → ℕ) → ℕ
total zero j f = 0
total (suc n) j f = add (f j) (total n (j + 1) f)

abbrev pub Bytes : (ℕ → ℕ) → Type 0
Bytes f = (t : ℕ) → f t < 256

pub total-byte : (n j : ℕ) (f : ℕ → ℕ) → Bytes f → total n j f < 256
unfolding total
total-byte zero j f h = omega arith
total-byte (suc n) j f h = add-byte (f j) (total n (j + 1) f) (h j) (total-byte n (j + 1) f h)

pub total_congr :
    (n j : ℕ) (f g : ℕ → ℕ) → ((t : ℕ) → j ≤ t → t < j + n → f t ≡ g t) → total n j f ≡ total n j g
unfolding total
total_congr zero j f g h = refl
total_congr (suc n) j f g h =
    ap (λ x. add x (total n (j + 1) f)) (h j (omega arith) (omega arith))
    ∙ ap (add (g j)) (total_congr n (j + 1) f g (λ t k l. h t (omega arith) (omega arith)))

pub total-add :
    (n j : ℕ) (f g : ℕ → ℕ) → total n j (λ t. add (f t) (g t)) ≡ add (total n j f) (total n j g)
unfolding total
total-add zero j f g = sym (add_self 0)
total-add (suc n) j f g =
    ap (add (add (f j) (g j))) (total-add n (j + 1) f g)
    ∙ add_interchange (f j) (g j) (total n (j + 1) f) (total n (j + 1) g)

pub mul-total :
    (c n j : ℕ) (f : ℕ → ℕ) → c < 256 → Bytes f → total n j (λ t. mul c (f t)) ≡ mul c (total n j f)
unfolding total
mul-total c zero j f h k = sym (mul_null c)
mul-total c (suc n) j f h k =
    ap (add (mul c (f j))) (mul-total c n (j + 1) f h k)
    ∙ sym (mul-add c (f j) (total n (j + 1) f) h (k j) (total-byte n (j + 1) f k))

pub total_zero : (n j : ℕ) (f : ℕ → ℕ) → ((t : ℕ) → j ≤ t → t < j + n → f t ≡ 0) → total n j f ≡ 0
unfolding total
total_zero zero j f h = refl
total_zero (suc n) j f h =
    ap (λ x. add x (total n (j + 1) f)) (h j (omega arith) (omega arith))
    ∙ zero-add (total n (j + 1) f)
    ∙ total_zero n (j + 1) f (λ t k l. h t (omega arith) (omega arith))

-- The entries of the unit matrix.
abbrev pub unit : ℕ → ℕ → ℕ
unit i j = if i == j then 1 else 0

pub unit_self : (i : ℕ) → unit i i ≡ 1
unit_self i = ground arith

pub unit_ne : (i j : ℕ) → i ≢ j → unit i j ≡ 0
unit_ne i j h = ground arith

-- Of the terms of a sum with a row of the unit matrix, one is left.
pub total-unit :
    (n j i : ℕ) (v : ℕ → ℕ)
    → Bytes v
    → j ≤ i
    → i < j + n
    → total n j (λ t. mul (unit i t) (v t)) ≡ v i
unfolding total
total-unit zero j i v b h k = absurd (omega arith)
total-unit (suc n) j i v b h k = elim (Bool-cases (i == j)) [
  | inl here ↦
      let same : i ≡ j = ground arith in
      ap (λ x. add (mul x (v j)) (total n (j + 1) (λ t. mul (unit i t) (v t)))) {y = 1}
        (ground arith)
      ∙ ap (add (mul 1 (v j))) (
          total_zero n (j + 1) (λ t. mul (unit i t) (v t))
            (λ t l m.
              ap (λ x. mul x (v t)) (unit_ne i t (λ e. absurd (omega arith))) ∙ mul_nothing (v t)))
      ∙ add-zero (mul 1 (v j))
      ∙ mul_one (v j) (b j)
      ∙ ap v (sym same)
  | inr later ↦
      ap (λ x. add (mul x (v j)) (total n (j + 1) (λ t. mul (unit i t) (v t)))) {y = 0}
        (ground arith)
      ∙ ap (λ x. add x (total n (j + 1) (λ t. mul (unit i t) (v t)))) (mul_nothing (v j))
      ∙ zero-add (total n (j + 1) (λ t. mul (unit i t) (v t)))
      ∙ total-unit n (j + 1) i v b (ground arith) (omega arith)
]

pub add-mul : (a b c : ℕ) → a < 256 → b < 256 → c < 256 → mul (add a b) c ≡ add (mul a c) (mul b c)
add-mul a b c h k l =
    mul_comm (add a b) c
    ∙ mul-add c a b l h k
    ∙ ap (λ x. add x (mul c b)) (mul_comm c a)
    ∙ ap (add (mul a c)) (mul_comm c b)

-- The product of a row and a column of `n` entries.
abbrev pub dot : ℕ → (ℕ → ℕ) → (ℕ → ℕ) → ℕ
dot n f v = total n 0 (λ t. mul (f t) (v t))

pub dot_congr : (n : ℕ) (f g v : ℕ → ℕ) → ((t : ℕ) → t < n → f t ≡ g t) → dot n f v ≡ dot n g v
dot_congr n f g v h =
    total_congr n 0 (λ t. mul (f t) (v t)) (λ t. mul (g t) (v t))
      (λ t k l. ap (λ x. mul x (v t)) (h t (omega arith)))

pub dot-byte : (n : ℕ) (f v : ℕ → ℕ) → Bytes f → Bytes v → dot n f v < 256
dot-byte n f v h k = total-byte n 0 (λ t. mul (f t) (v t)) (λ t. mul-byte (f t) (v t) (h t) (k t))

pub mul-dot :
    (c n : ℕ) (f v : ℕ → ℕ)
    → c < 256
    → Bytes f
    → Bytes v
    → dot n (λ t. mul c (f t)) v ≡ mul c (dot n f v)
mul-dot c n f v h k l =
    total_congr n 0 (λ t. mul (mul c (f t)) (v t)) (λ t. mul c (mul (f t) (v t)))
      (λ t a b. mul-mul c (f t) (v t) h (k t) (l t))
    ∙ mul-total c n 0 (λ t. mul (f t) (v t)) h (λ t. mul-byte (f t) (v t) (k t) (l t))

pub dot-add :
    (c n : ℕ) (f g v : ℕ → ℕ)
    → c < 256
    → Bytes f
    → Bytes g
    → Bytes v
    → dot n (λ t. add (f t) (mul c (g t))) v ≡ add (dot n f v) (mul c (dot n g v))
dot-add c n f g v h k l m =
    total_congr n 0 (λ t. mul (add (f t) (mul c (g t))) (v t))
      (λ t. add (mul (f t) (v t)) (mul (mul c (g t)) (v t)))
      (λ t a b. add-mul (f t) (mul c (g t)) (v t) (k t) (mul-byte c (g t) h (l t)) (m t))
    ∙ total-add n 0 (λ t. mul (f t) (v t)) (λ t. mul (mul c (g t)) (v t))
    ∙ ap (add (dot n f v)) (mul-dot c n g v h l m)
