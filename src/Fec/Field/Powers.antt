-- ===== src/Fec/Field/Powers.antt =====
-- Products of src/fec/gf.rs as repeated doublings.
use seam.Prelude.{
  ℕ, zero, suc, ◌+◌, ◌%◌, ◌≤◌, ◌<◌, Bool, true, ◌&&◌, ◌≡◌, refl, sym, ap, ◌∙◌, arith, ◌==◌, ltb,
  Bool-cases, inl, inr, ltb→lt, not-ltb,
}
use seam.Prelude.Bits.{bit_xor}
use seam.Fec.Field.{build_tables, build_loop, exp_at, log_at, mul, next_power}
use seam.Fec.Field.Tables.{every, every_lem, exp_at-log_at}

step_checked : every 509 (λ n. next_power (exp_at n) == exp_at (n + 1)) ≡ true
unfolding exp_at build_tables build_loop
step_checked = refl

linear_checked :
    every 256
      (λ x. every 256 (λ y. next_power (bit_xor x y) == bit_xor (next_power x) (next_power y)))
    ≡ true
linear_checked = refl

byte_checked : every 256 (λ x. ltb (next_power x) 256) ≡ true
byte_checked = refl

log_checked : every 510 (λ n. log_at (exp_at n) == n % 255) ≡ true
unfolding exp_at log_at build_tables build_loop
log_checked = refl

xor_checked : every 256 (λ x. every 256 (λ y. ltb (bit_xor x y) 256)) ≡ true
xor_checked = refl

range_checked : every 510 (λ n. ltb 0 (exp_at n) && ltb (exp_at n) 256) ≡ true
unfolding exp_at build_tables build_loop
range_checked = refl

log_range_checked : every 256 (λ x. ltb (log_at x) 255) ≡ true
unfolding log_at build_tables build_loop
log_range_checked = refl

-- `x`, doubled `n` times.
unfoldable pub times : ℕ → ℕ → ℕ
times zero x = x
times (suc n) x = next_power (times n x)

period_checked : every 256 (λ x. times 255 x == x) ≡ true
unfolding times
period_checked = refl

equal : (a b : ℕ) → (a == b) ≡ true → a ≡ b
equal a b h = ground arith

both :
    (n m : ℕ) (test : ℕ → ℕ → Bool)
    → every n (λ x. every m (test x)) ≡ true
    → (x y : ℕ) → x < n
    → y < m
    → test x y ≡ true
both n m test h x y l k = every_lem m (test x) (every_lem n (λ z. every m (test z)) h x l) y k

pub xor-byte : (x y : ℕ) → x < 256 → y < 256 → bit_xor x y < 256
xor-byte x y h k = ltb→lt _ 256 (both 256 256 (λ a b. ltb (bit_xor a b) 256) xor_checked x y h k)

next_power_lem : (n : ℕ) → n < 509 → next_power (exp_at n) ≡ exp_at (n + 1)
next_power_lem n h =
    equal _ _ (every_lem 509 (λ k. next_power (exp_at k) == exp_at (k + 1)) step_checked n h)

next_power-xor :
    (x y : ℕ) → x < 256 → y < 256 → next_power (bit_xor x y) ≡ bit_xor (next_power x) (next_power y)
next_power-xor x y h k = equal _ _ (
    both 256 256 (λ a b. next_power (bit_xor a b) == bit_xor (next_power a) (next_power b))
      linear_checked x y h k)

times-byte : (n x : ℕ) → x < 256 → times n x < 256
unfolding times
times-byte zero x h = h
times-byte (suc n) x h =
    ltb→lt _ 256
      (every_lem 256 (λ y. ltb (next_power y) 256) byte_checked (times n x) (times-byte n x h))

pub times-xor :
    (n x y : ℕ) → x < 256 → y < 256 → times n (bit_xor x y) ≡ bit_xor (times n x) (times n y)
unfolding times
times-xor zero x y h k = refl
times-xor (suc n) x y h k =
    ap next_power (times-xor n x y h k)
    ∙ next_power-xor (times n x) (times n y) (times-byte n x h) (times-byte n y k)

times-exp_at : (n k : ℕ) → k + n < 510 → times n (exp_at k) ≡ exp_at (k + n)
unfolding times
times-exp_at zero k h = ap exp_at (omega arith)
times-exp_at (suc n) k h =
    ap next_power (times-exp_at n k (omega arith))
    ∙ next_power_lem (k + n) (omega arith)
    ∙ ap exp_at (omega arith)

times-zero : (n : ℕ) → times n 0 ≡ 0
unfolding times
times-zero zero = refl
times-zero (suc n) = ap next_power (times-zero n)

pub times_add : (m n x : ℕ) → times (m + n) x ≡ times m (times n x)
unfolding times
times_add zero n x = ap (λ k. times k x) {x = 0 + n} {y = n} (omega arith)
times_add (suc m) n x =
    ap (λ k. times k x) {x = suc m + n} {y = suc (m + n)} (omega arith)
    ∙ ap next_power (times_add m n x)

pub log-byte : (x : ℕ) → x < 256 → log_at x < 255
log-byte x h = ltb→lt _ 255 (every_lem 256 (λ y. ltb (log_at y) 255) log_range_checked x h)

pub mul_null : (a : ℕ) → mul a 0 ≡ 0
unfolding mul
mul_null a = ground arith

pub mul_nothing : (x : ℕ) → mul 0 x ≡ 0
unfolding mul
mul_nothing x = refl

mul_logs : (a x : ℕ) → 1 ≤ a → 1 ≤ x → mul a x ≡ exp_at (log_at a + log_at x)
unfolding mul
mul_logs a x h k = ground arith

-- A product is a number of doublings.
pub mul-times : (a x : ℕ) → 1 ≤ a → a < 256 → x < 256 → mul a x ≡ times (log_at a) x
mul-times a x h l k = elim (Bool-cases (x == 0)) [
  | inl none_ ↦
      ap (mul a) {y = 0} (ground arith)
      ∙ mul_null a
      ∙ sym (times-zero (log_at a))
      ∙ ap (times (log_at a)) (ground arith)
  | inr some_ ↦
      mul_logs a x h (ground arith)
      ∙ ap exp_at (omega arith)
      ∙ sym (times-exp_at (log_at a) (log_at x) (omega (arith, log-byte a l, log-byte x k)))
      ∙ ap (times (log_at a)) (exp_at-log_at x (ground arith) k)
]

-- Doubling 255 times changes nothing.
pub times-mod : (m x : ℕ) → m < 510 → x < 256 → times (m % 255) x ≡ times m x
times-mod m x h k = elim (Bool-cases (ltb m 255)) [
  | inl low ↦ ap (λ n. times n x) (omega (arith, ltb→lt m 255 low))
  | inr high ↦
      sym (
        ap (times (m % 255)) (equal _ _ (every_lem 256 (λ y. times 255 y == y) period_checked x k)))
      ∙ sym (times_add (m % 255) 255 x)
      ∙ ap (λ n. times n x) (omega (arith, not-ltb m 255 high))
]

-- The product of two bytes that are not 0: its logarithm, and its range.
pub log-mul :
    (a b : ℕ) → 1 ≤ a → a < 256 → 1 ≤ b → b < 256 → log_at (mul a b) ≡ (log_at a + log_at b) % 255
log-mul a b h l k m =
    ap log_at (mul_logs a b h k)
    ∙ equal _ _ (
        every_lem 510 (λ n. log_at (exp_at n) == n % 255) log_checked (log_at a + log_at b)
          (omega (arith, log-byte a l, log-byte b m)))

pub mul-range : (a b : ℕ) → 1 ≤ a → a < 256 → 1 ≤ b → b < 256 → (1 ≤ mul a b) × (mul a b < 256)
mul-range a b h l k m = rw (mul_logs a b h k) (
    within (exp_at (log_at a + log_at b)) (
      every_lem 510 (λ n. ltb 0 (exp_at n) && ltb (exp_at n) 256) range_checked
        (log_at a + log_at b) (omega (arith, log-byte a l, log-byte b m))))
  where
    within : (v : ℕ) → (ltb 0 v && ltb v 256) ≡ true → (1 ≤ v) × (v < 256)
    within v e = ground arith

pub mul-byte : (a b : ℕ) → a < 256 → b < 256 → mul a b < 256
mul-byte a b h k = elim (Bool-cases (a == 0)) [
  | inl none_ ↦ omega (arith, ap (λ c. mul c b) {x = a} {y = 0} (ground arith), mul_nothing b)
  | inr some_ ↦ omega (arith, mul-times a b (ground arith) h k, times-byte (log_at a) b k)
]
