-- ===== src/Prelude/Bits.antt =====
-- The binary digits of a number, and what the bit operations do to them.
use Prim.Native.Nat.{
  ℕ, zero, suc, ◌+◌, ◌*◌, ◌/◌, ◌%◌, ◌^◌, ◌≤◌, ◌<◌, min, max, digits, bitwise, bit_and-bitwise,
  bit_or-bitwise,
}
pub use Prim.Native.Nat.{bit_and, bit_or, bit_xor}
use mathlib.Core.Path.{◌≡◌, refl, ap, sym, ◌∙◌}
use native.Mathlib.Nat.{le_refl, pow-suc, pow-succ', div-div-eq-div-mul, one-le-pow}
use native.Mathlib.Omega.{arith}

-- The digit of weight 2 ^ i.
abbrev pub bit_at : ℕ → ℕ → ℕ
bit_at w zero = w % 2
bit_at w (suc i) = bit_at (w / 2) i

pub bit_at-lt : (w i : ℕ) → bit_at w i < 2
bit_at-lt w zero = omega arith
bit_at-lt w (suc i) = bit_at-lt (w / 2) i

-- An operation on the digits, `op`, and what it leaves of the second number once the first has run out.
module _ (left : ℕ → ℕ) (op : ℕ → ℕ → ℕ) where
  digits-zero : (count b : ℕ) → digits left op count 0 b ≡ left b
  digits-zero zero b = refl
  digits-zero (suc count) b = refl

  -- Any two counts that are no less than the first number serve alike.
  digits-count :
      (count count' : ℕ) {a : ℕ} (b : ℕ)
      → a ≤ count
      → a ≤ count'
      → digits left op count a b ≡ digits left op count' a b
  digits-count count count' {a = zero} b _ _ = digits-zero count b ∙ sym (digits-zero count' b)
  digits-count zero _ {a = suc a} b h _ = absurd (omega arith)
  digits-count (suc count) zero {a = suc a} b _ h = absurd (omega arith)
  digits-count (suc count) (suc count') {a = suc a} b h h' =
      ap (λ upper. upper * 2 + op (suc a % 2) (b % 2))
        (digits-count count count' (b / 2) (omega arith) (omega arith))

  -- The lowest digit apart from the others.
  pub bitwise-digits :
      ((b : ℕ) → left b ≡ left (b / 2) * 2 + op 0 (b % 2))
      → (a b : ℕ) → bitwise left op a b ≡ bitwise left op (a / 2) (b / 2) * 2 + op (a % 2) (b % 2)
  bitwise-digits ends zero b = ends b
  bitwise-digits ends (suc a) b =
      ap (λ upper. upper * 2 + op (suc a % 2) (b % 2))
        (digits-count a (suc a / 2) (b / 2) (omega arith) (le_refl (suc a / 2)))

pub bit_and_step : (a b : ℕ) → bit_and a b ≡ bit_and (a / 2) (b / 2) * 2 + min (a % 2) (b % 2)
bit_and_step a b = simp bit_and-bitwise (bitwise-digits (λ _. 0) min (λ y. omega arith) a b)

pub bit_or_step : (a b : ℕ) → bit_or a b ≡ bit_or (a / 2) (b / 2) * 2 + max (a % 2) (b % 2)
bit_or_step a b = simp bit_or-bitwise (bitwise-digits (λ y. y) max (λ y. omega arith) a b)

pub bit_at-bit_or : (a b i : ℕ) → bit_at (bit_or a b) i ≡ max (bit_at a i) (bit_at b i)
bit_at-bit_or a b zero = omega (arith, bit_or_step a b)
bit_at-bit_or a b (suc i) =
    ap (λ w. bit_at w i) (omega (arith, bit_or_step a b)) ∙ bit_at-bit_or (a / 2) (b / 2) i

and_nothing : (w : ℕ) {bound : ℕ} → w ≤ bound → bit_and w 0 ≡ 0
and_nothing zero _ = simp bit_and-bitwise (omega arith)
and_nothing (suc w) {bound = zero} h = absurd (omega arith)
and_nothing (suc w) {bound = suc bound} h =
    let upper : bit_and (suc w / 2) 0 ≡ 0 = and_nothing (suc w / 2) {bound = bound} (omega arith) in
    omega (arith, bit_and_step (suc w) 0, upper)

pub bit_and-zero : (w : ℕ) → bit_and w 0 ≡ 0
bit_and-zero w = and_nothing w (le_refl w)

-- A mask of one digit.
pub bit_and-pow : (w i : ℕ) → bit_and w (2 ^ i) ≡ bit_at w i * 2 ^ i
bit_and-pow w zero = omega (arith, bit_and_step w 1, bit_and-zero (w / 2))
bit_and-pow w (suc i) = omega (
  arith,
  bit_and_step w (2 ^ suc i),
  pow-suc 2 i,
  ap (λ t. bit_and (w / 2) t) half,
  bit_and-pow (w / 2) i,
  ap (λ (t : ℕ). bit_at (w / 2) i * t) (pow-suc 2 i),
)
  where
    half : 2 ^ suc i / 2 ≡ 2 ^ i
    half = omega (arith, pow-suc 2 i)

bit_at_eq : (a b i j : ℕ) → a ≡ b → i ≡ j → bit_at a i ≡ bit_at b j
bit_at_eq a b i j p q = rw (p, q)

pub bit_at-shr : (a s i : ℕ) → bit_at (a / 2 ^ s) i ≡ bit_at a (s + i)
bit_at-shr a zero i = bit_at_eq (a / 2 ^ 0) a i (0 + i) (omega arith) (omega arith)
bit_at-shr a (suc s) i =
    bit_at_eq _ _ i i (ap (λ (t : ℕ). a / t) (pow-succ' 2 s) ∙ sym (div-div-eq-div-mul a 2 (2 ^ s)))
      refl
    ∙ bit_at-shr (a / 2) s i
    ∙ bit_at_eq a a (suc (s + i)) (suc s + i) refl (omega arith)

double_pow : (a s : ℕ) → a * 2 ^ suc s ≡ 2 * (a * 2 ^ s)
double_pow a s = omega (arith, ap (λ (t : ℕ). a * t) (pow-suc 2 s))

pub bit_at-shl_below : (a s i : ℕ) → i < s → bit_at (a * 2 ^ s) i ≡ 0
bit_at-shl_below a zero i h = absurd (omega arith)
bit_at-shl_below a (suc s) zero h = omega (arith, double_pow a s)
bit_at-shl_below a (suc s) (suc i) h =
    bit_at_eq _ (a * 2 ^ s) i i (omega (arith, double_pow a s)) refl
    ∙ bit_at-shl_below a s i (omega arith)

pub bit_at-shl : (a s i : ℕ) → bit_at (a * 2 ^ s) (s + i) ≡ bit_at a i
bit_at-shl a zero i = bit_at_eq (a * 1) a (0 + i) i (omega arith) (omega arith)
bit_at-shl a (suc s) i =
    bit_at_eq (a * 2 ^ suc s) (a * 2 ^ suc s) (suc s + i) (suc (s + i)) refl (omega arith)
    ∙ bit_at_eq _ (a * 2 ^ s) (s + i) (s + i) (omega (arith, double_pow a s)) refl
    ∙ bit_at-shl a s i

mod_double : (a m : ℕ) → 0 < m → a % (2 * m) ≡ 2 * (a / 2 % m) + a % 2
mod_double a m h = grind arith

pub bit_at-mod : (a n i : ℕ) → i < n → bit_at (a % 2 ^ n) i ≡ bit_at a i
bit_at-mod a zero i h = absurd (omega arith)
bit_at-mod a (suc n) zero h =
    rw (pow-succ' 2 n) (omega (arith, mod_double a (2 ^ n) (one-le-pow n 2 (omega arith))))
bit_at-mod a (suc n) (suc i) h =
    rw (pow-succ' 2 n) (
      bit_at_eq _ (a / 2 % 2 ^ n) i i
        (omega (arith, mod_double a (2 ^ n) (one-le-pow n 2 (omega arith)))) refl)
    ∙ bit_at-mod (a / 2) n i (omega arith)

pub bit_at-pow_self : (b : ℕ) → bit_at (2 ^ b) b ≡ 1
bit_at-pow_self b =
    bit_at_eq (2 ^ b) (1 * 2 ^ b) b (b + 0) (omega arith) (omega arith) ∙ bit_at-shl 1 b 0

zero-bit_at : (i : ℕ) → bit_at 0 i ≡ 0
zero-bit_at zero = refl
zero-bit_at (suc i) = zero-bit_at i

pub bit_at-zero : (i : ℕ) → bit_at 0 i ≡ 0
bit_at-zero = zero-bit_at

pub bit_at-pow_ne : (b i : ℕ) → (i ≡ b → ⊥) → bit_at (2 ^ b) i ≡ 0
bit_at-pow_ne zero zero h = absurd (h refl)
bit_at-pow_ne zero (suc i) h = zero-bit_at i
bit_at-pow_ne (suc b) zero h = omega (arith, pow-suc 2 b)
bit_at-pow_ne (suc b) (suc i) h =
    bit_at_eq _ (2 ^ b) i i (omega (arith, pow-suc 2 b)) refl
    ∙ bit_at-pow_ne b i (λ e. h (ap suc e))

pub bit_at_high : (w n i : ℕ) → w < 2 ^ n → n ≤ i → bit_at w i ≡ 0
bit_at_high w zero i h le = bit_at_eq w 0 i i (omega arith) refl ∙ zero-bit_at i
bit_at_high w (suc n) zero h le = absurd (omega arith)
bit_at_high w (suc n) (suc i) h le =
    bit_at_high (w / 2) n i (omega (arith, pow-suc 2 n)) (omega arith)

small-half : (a : ℕ) → a < 1 → a / 2 ≡ 0
small-half a h = omega arith

pub bit_or-lt : (n a b : ℕ) → a < 2 ^ n → b < 2 ^ n → bit_or a b < 2 ^ n
bit_or-lt zero a b h k = omega (arith, bit_or_step a b, zero-or)
  where
    zero-or : bit_or (a / 2) (b / 2) ≡ 0
    zero-or = rw (small-half a h, small-half b k) (simp bit_or-bitwise (omega arith))
bit_or-lt (suc n) a b h k = omega (
  arith,
  bit_or_step a b,
  pow-suc 2 n,
  bit_or-lt n (a / 2) (b / 2) (omega (arith, pow-suc 2 n)) (omega (arith, pow-suc 2 n)),
)
