-- ===== src/Fec/Field/Tables.antt =====
-- What the tables of src/fec/gf.rs hold.
use seam.Prelude.{
  ltb, ltb→lt, ℕ, zero, suc, ◌+◌, ◌-◌, ◌≤◌, ◌<◌, none, some, Bool, true, false, ◌&&◌, ◌||◌, ◌≡◌,
  ◌⊎◌, ◌≢◌, refl, ap, ◌∙◌, arith, ◌==◌, Bool-cases, inl, inr,
}
use seam.Fec.Field.{build_tables, build_loop, exp_at, log_at, mul, inv}

-- The test holds of all numbers below `n`.
abbrev pub every : ℕ → (ℕ → Bool) → Bool
every zero test = true
every (suc n) test = test n && every n test

pub every_lem : (n : ℕ) (test : ℕ → Bool) → every n test ≡ true → (k : ℕ) → k < n → test k ≡ true
every_lem zero test h k l = absurd (omega arith)
every_lem (suc n) test h k l = elim (Bool-cases (k == n)) [
  | inl last ↦ ap test (ground arith) ∙ first
  | inr below ↦ every_lem n test rest k (ground arith)
]
  where
    first : test n ≡ true
    first = ground (arith, h)

    rest : every n test ≡ true
    rest = ground (arith, h)

exp-log_checked : every 256 (λ x. (x == 0) || (exp_at (log_at x) == x)) ≡ true
unfolding exp_at log_at build_tables build_loop
exp-log_checked = refl

-- The logarithm of every byte but 0 is the exponent of its power.
pub exp_at-log_at : (x : ℕ) → 1 ≤ x → x < 256 → exp_at (log_at x) ≡ x
exp_at-log_at x h l =
    nonzero (every_lem 256 (λ y. (y == 0) || (exp_at (log_at y) == y)) exp-log_checked x l)
  where
    nonzero : ((x == 0) || (exp_at (log_at x) == x)) ≡ true → exp_at (log_at x) ≡ x
    nonzero e = ground arith

log_one : log_at 1 ≡ 0
unfolding log_at build_tables build_loop
log_one = refl

pub mul_one : (x : ℕ) → x < 256 → mul 1 x ≡ x
unfolding mul
mul_one x l = elim (Bool-cases (x == 0)) [
  | inl none_ ↦ ground arith
  | inr some_ ↦
      ground (arith, ap exp_at (ap (λ n. n + log_at x) log_one), exp_at-log_at x (ground arith) l)
]

inverse_checked : every 256 (λ x. (x == 0) || (mul x (exp_at (255 - log_at x)) == 1)) ≡ true
unfolding mul exp_at log_at build_tables build_loop
inverse_checked = refl

-- Every byte but 0 has an inverse, a byte with which its product is 1; 0 has none.
pub mul-inv :
    (x : ℕ) → x < 256 → ((x ≡ 0) × (inv x ≡ none)) ⊎ ((y : ℕ) × (inv x ≡ some y) × (mul x y ≡ 1))
unfolding inv
mul-inv x l = elim (Bool-cases (x == 0)) [
  | inl none_ ↦ inl (ground arith, rw (none_, inv) refl)
  | inr some_ ↦ inr (
    exp_at (255 - log_at x),
    rw (some_, inv) refl,
    one some_ (
        every_lem 256 (λ y. (y == 0) || (mul y (exp_at (255 - log_at y)) == 1)) inverse_checked x
          l),
  )
]
  where
    one :
        (x == 0) ≡ false
        → ((x == 0) || (mul x (exp_at (255 - log_at x)) == 1)) ≡ true
        → mul x (exp_at (255 - log_at x)) ≡ 1
    one n e = ground arith

pub inv-some : (x : ℕ) → x ≢ 0 → (y : ℕ) × (inv x ≡ some y)
unfolding inv
inv-some x h = elim (Bool-cases (x == 0)) [
  | inl none_ ↦ absurd (h (ground arith))
  | inr some_ ↦ (exp_at (255 - log_at x), rw (some_, inv) refl)
]

inverse_bytes : every 256 (λ x. ltb (exp_at (255 - log_at x)) 256) ≡ true
unfolding exp_at log_at build_tables build_loop
inverse_bytes = refl

pub inv-byte : (x y : ℕ) → x < 256 → inv x ≡ some y → y < 256
unfolding inv
inv-byte x y l h = elim (Bool-cases (x == 0)) [
  | inl none_ ↦ absurd (ground arith)
  | inr some_ ↦ ground (
    arith,
    ltb→lt (exp_at (255 - log_at x)) 256
        (every_lem 256 (λ z. ltb (exp_at (255 - log_at z)) 256) inverse_bytes x l),
  )
]
