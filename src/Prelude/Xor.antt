-- ===== src/Prelude/Xor.antt =====
-- Exclusive or, of numbers and of byte strings.
use Prim.Native.Nat.{ℕ, zero, suc, ◌+◌, ◌*◌, ◌/◌, ◌%◌, ◌≤◌, ◌<◌, differ, bit_xor-bitwise}
use mathlib.Core.Path.{◌≡◌, refl, ap, ap₂, sym, ◌∙◌}
use mathlib.Core.List.{List, [], ◌∷◌, head-eq_of_cons-eq, tail-eq_of_cons-eq}
use native.Mathlib.Omega.{arith}
use seam.Prelude.Bits.{bit_xor, bitwise-digits}
use seam.Prelude.Lists.{length}

bit_xor_step : (a b : ℕ) → bit_xor a b ≡ bit_xor (a / 2) (b / 2) * 2 + differ (a % 2) (b % 2)
bit_xor_step a b = simp bit_xor-bitwise (bitwise-digits (λ y. y) differ (λ y. omega arith) a b)

differ-cancel : (a b : ℕ) → a < 2 → b < 2 → differ (differ a b) b ≡ a
differ-cancel zero zero h k = refl
differ-cancel zero (suc zero) h k = refl
differ-cancel (suc zero) zero h k = refl
differ-cancel (suc zero) (suc zero) h k = refl
differ-cancel (suc (suc a)) b h k = absurd (omega arith)
differ-cancel zero (suc (suc b)) h k = absurd (omega arith)
differ-cancel (suc zero) (suc (suc b)) h k = absurd (omega arith)

differ-lt : (a b : ℕ) → a < 2 → b < 2 → differ a b < 2
differ-lt zero b h k = k
differ-lt (suc zero) zero h k = omega arith
differ-lt (suc zero) (suc zero) h k = omega arith
differ-lt (suc (suc a)) b h k = absurd (omega arith)
differ-lt (suc zero) (suc (suc b)) h k = absurd (omega arith)

differ_comm : (a b : ℕ) → differ a b ≡ differ b a
differ_comm zero zero = refl
differ_comm zero (suc b) = refl
differ_comm (suc a) zero = refl
differ_comm (suc a) (suc b) = differ_comm a b

-- The upper digits of an exclusive or, and the lowest.
bit_xor-half : (a b : ℕ) → bit_xor a b / 2 ≡ bit_xor (a / 2) (b / 2)
bit_xor-half a b =
    omega (arith, bit_xor_step a b, differ-lt (a % 2) (b % 2) (omega arith) (omega arith))

bit_xor-parity : (a b : ℕ) → bit_xor a b % 2 ≡ differ (a % 2) (b % 2)
bit_xor-parity a b =
    omega (arith, bit_xor_step a b, differ-lt (a % 2) (b % 2) (omega arith) (omega arith))

cancel_fuel : (n a b : ℕ) → a ≤ n → b ≤ n → bit_xor (bit_xor a b) b ≡ a
cancel_fuel zero zero zero h k = refl
cancel_fuel zero (suc a) b h k = absurd (omega arith)
cancel_fuel zero zero (suc b) h k = absurd (omega arith)
cancel_fuel (suc n) a b h k =
    bit_xor_step (bit_xor a b) b
    ∙ ap₂ (λ u v. u * 2 + v)
        (ap (λ x. bit_xor x (b / 2)) (bit_xor-half a b)
          ∙ cancel_fuel n (a / 2) (b / 2) (omega arith) (omega arith))
        (ap (λ d. differ d (b % 2)) (bit_xor-parity a b)
          ∙ differ-cancel (a % 2) (b % 2) (omega arith) (omega arith))
    ∙ omega arith

pub bit_xor-cancel : (a b : ℕ) → bit_xor (bit_xor a b) b ≡ a
bit_xor-cancel a b = cancel_fuel (a + b) a b (omega arith) (omega arith)

comm_fuel : (n a b : ℕ) → a ≤ n → b ≤ n → bit_xor a b ≡ bit_xor b a
comm_fuel zero zero zero h k = refl
comm_fuel zero (suc a) b h k = absurd (omega arith)
comm_fuel zero zero (suc b) h k = absurd (omega arith)
comm_fuel (suc n) a b h k =
    bit_xor_step a b
    ∙ ap₂ (λ u v. u * 2 + v) (comm_fuel n (a / 2) (b / 2) (omega arith) (omega arith))
        (differ_comm (a % 2) (b % 2))
    ∙ sym (bit_xor_step b a)

pub bit_xor_comm : (a b : ℕ) → bit_xor a b ≡ bit_xor b a
bit_xor_comm a b = comm_fuel (a + b) a b (omega arith) (omega arith)

differ_assoc : (a b c : ℕ) → a < 2 → b < 2 → c < 2 → differ (differ a b) c ≡ differ a (differ b c)
differ_assoc zero zero c h k l = refl
differ_assoc zero (suc zero) c h k l = refl
differ_assoc (suc zero) zero c h k l = refl
differ_assoc (suc zero) (suc zero) zero h k l = refl
differ_assoc (suc zero) (suc zero) (suc zero) h k l = refl
differ_assoc (suc zero) (suc zero) (suc (suc c)) h k l = absurd (omega arith)
differ_assoc (suc (suc a)) b c h k l = absurd (omega arith)
differ_assoc zero (suc (suc b)) c h k l = absurd (omega arith)
differ_assoc (suc zero) (suc (suc b)) c h k l = absurd (omega arith)

-- Two numbers are equal if their halves and their lowest digits are.
by_digits : (x y : ℕ) → x / 2 ≡ y / 2 → x % 2 ≡ y % 2 → x ≡ y
by_digits x y h k = omega arith

assoc_fuel :
    (n a b c : ℕ) → a ≤ n → b ≤ n → c ≤ n → bit_xor (bit_xor a b) c ≡ bit_xor a (bit_xor b c)
assoc_fuel zero zero zero zero h k l = refl
assoc_fuel zero (suc a) b c h k l = absurd (omega arith)
assoc_fuel zero zero (suc b) c h k l = absurd (omega arith)
assoc_fuel zero zero zero (suc c) h k l = absurd (omega arith)
assoc_fuel (suc n) a b c h k l =
    by_digits _ _
      (bit_xor-half (bit_xor a b) c
        ∙ ap (λ x. bit_xor x (c / 2)) (bit_xor-half a b)
        ∙ assoc_fuel n (a / 2) (b / 2) (c / 2) (omega arith) (omega arith) (omega arith)
        ∙ ap (bit_xor (a / 2)) (sym (bit_xor-half b c))
        ∙ sym (bit_xor-half a (bit_xor b c)))
      (bit_xor-parity (bit_xor a b) c
        ∙ ap (λ x. differ x (c % 2)) (bit_xor-parity a b)
        ∙ differ_assoc (a % 2) (b % 2) (c % 2) (omega arith) (omega arith) (omega arith)
        ∙ ap (differ (a % 2)) (sym (bit_xor-parity b c))
        ∙ sym (bit_xor-parity a (bit_xor b c)))

pub bit_xor_assoc : (a b c : ℕ) → bit_xor (bit_xor a b) c ≡ bit_xor a (bit_xor b c)
bit_xor_assoc a b c = assoc_fuel (a + b + c) a b c (omega arith) (omega arith) (omega arith)

zero_fuel : (n b : ℕ) → b ≤ n → bit_xor 0 b ≡ b
zero_fuel zero zero h = refl
zero_fuel zero (suc b) h = absurd (omega arith)
zero_fuel (suc n) b h =
    bit_xor_step 0 b ∙ ap (λ u. u * 2 + b % 2) (zero_fuel n (b / 2) (omega arith)) ∙ omega arith

pub bit_xor-zero : (a : ℕ) → bit_xor a 0 ≡ a
bit_xor-zero a = bit_xor_comm a 0 ∙ zero_fuel a a (omega arith)

pub bit_xor-inj : (a b c : ℕ) → bit_xor a b ≡ bit_xor a c → b ≡ c
bit_xor-inj a b c h =
    sym (bit_xor-cancel b a)
    ∙ ap (λ x. bit_xor x a) (bit_xor_comm b a ∙ h ∙ bit_xor_comm a c)
    ∙ bit_xor-cancel c a

-- `for (x, m) in xs.iter_mut().zip(ms) { *x ^= m }`
abbrev pub xor_bytes : List ℕ → List ℕ → List ℕ
xor_bytes [] ms = []
xor_bytes (x ∷ xs) [] = x ∷ xs
xor_bytes (x ∷ xs) (m ∷ ms) = bit_xor x m ∷ xor_bytes xs ms

pub length-xor_bytes : (xs ms : List ℕ) → length (xor_bytes xs ms) ≡ length xs
length-xor_bytes [] ms = refl
length-xor_bytes (x ∷ xs) [] = refl
length-xor_bytes (x ∷ xs) (m ∷ ms) = ap suc (length-xor_bytes xs ms)

pub xor_bytes-cancel : (xs ms : List ℕ) → xor_bytes (xor_bytes xs ms) ms ≡ xs
xor_bytes-cancel [] ms = refl
xor_bytes-cancel (x ∷ xs) [] = refl
xor_bytes-cancel (x ∷ xs) (m ∷ ms) = ap₂ ◌∷◌ (bit_xor-cancel x m) (xor_bytes-cancel xs ms)

-- Two masks of one length, no longer than what they are applied to, are told apart by the result.
pub xor_bytes-inj :
    (xs p q : List ℕ)
    → length p ≡ length q
    → length p ≤ length xs
    → xor_bytes xs p ≡ xor_bytes xs q
    → p ≡ q
xor_bytes-inj xs [] [] l h e = refl
xor_bytes-inj xs [] (b ∷ q) l h e = absurd (omega arith)
xor_bytes-inj xs (a ∷ p) [] l h e = absurd (omega arith)
xor_bytes-inj [] (a ∷ p) (b ∷ q) l h e = absurd (omega arith)
xor_bytes-inj (x ∷ xs) (a ∷ p) (b ∷ q) l h e =
    ap₂ ◌∷◌ (bit_xor-inj x a b (head-eq_of_cons-eq e))
      (xor_bytes-inj xs p q (omega arith) (omega arith) (tail-eq_of_cons-eq e))
