-- ===== src/Fec/Field.antt =====
-- src/fec/gf.rs: arithmetic in the field of 256 elements by tables of powers and logarithms.
pub mod Tables
pub mod Slices
pub mod Powers
pub mod Laws
pub mod Sums
mod Tests
use seam.Prelude.{
  ℕ, zero, suc, ◌+◌, ◌-◌, ◌*◌, ◌/◌, ◌%◌, List, Option, none, some, Bool, true, false, ◌||◌, ◌==◌,
  ltb, if◌then◌else◌, length, get_or, set, replicate,
}
use seam.Prelude.Bits.{bit_and, bit_xor}

abbrev pub poly : ℕ
poly = 0x11d

-- `x <<= 1; if x & 0x100 != 0 { x ^= POLY; }`
abbrev pub next_power : ℕ → ℕ
next_power x =
    let doubled = x * 2 in if bit_and doubled 0x100 == 0 then doubled else bit_xor doubled poly

-- The loop of `build_tables`, with the rounds left, `i`, `x` and the tables.
unfoldable pub build_loop : ℕ → ℕ → ℕ → List ℕ → List ℕ → List ℕ × List ℕ
build_loop zero i x exp log = (exp, log)
build_loop (suc n) i x exp log =
    build_loop n (i + 1) (next_power x) (set (set exp i (x % 256)) (i + 255) (x % 256))
      (set log x (i % 256))

unfoldable pub build_tables : List ℕ × List ℕ
unfolding build_loop
build_tables =
    let (exp, log) = build_loop 255 0 1 (replicate 512 0) (replicate 256 0) in
    (set (set exp 255 1) 510 1, log)

unfoldable pub exp_at : ℕ → ℕ
unfolding build_tables
exp_at n = get_or build_tables.0 n 0

unfoldable pub log_at : ℕ → ℕ
unfolding build_tables
log_at n = get_or build_tables.1 n 0

unfoldable pub add : ℕ → ℕ → ℕ
add a b = bit_xor a b

unfoldable pub mul : ℕ → ℕ → ℕ
mul a b = if (a == 0) || (b == 0) then 0 else exp_at (log_at a + log_at b)

-- Division by 0 fails an assertion of debug builds only; a release build goes on.
pub div : ℕ → ℕ → ℕ
div a b = if a == 0 then 0 else exp_at (log_at a + 255 - log_at b)

unfoldable pub inv : ℕ → Option ℕ
inv a = if a == 0 then none else some (exp_at (255 - log_at a))

-- `dst[i] ^= f(src[i])`
unfoldable pub xor_at : (ℕ → ℕ) → List ℕ → ℕ → List ℕ → List ℕ
xor_at f src i dst = set dst i (bit_xor (get_or dst i 0) (f (get_or src i 0)))

-- The eight assignments of the unrolled loop.
unfoldable pub xor_eight : (ℕ → ℕ) → List ℕ → ℕ → List ℕ → List ℕ
xor_eight f src b dst = xor_at f src (b + 7) (
    xor_at f src (b + 6) (
      xor_at f src (b + 5) (
        xor_at f src (b + 4) (
          xor_at f src (b + 3)
            (xor_at f src (b + 2) (xor_at f src (b + 1) (xor_at f src b dst)))))))

-- `for i in 0..chunks`, with the rounds left and `i`.
unfoldable pub xor_chunks : (ℕ → ℕ) → List ℕ → ℕ → ℕ → List ℕ → List ℕ
xor_chunks f src zero i dst = dst
xor_chunks f src (suc n) i dst = xor_chunks f src n (i + 1) (xor_eight f src (i * 8) dst)

-- `for i in 0..rem` from `base` on, with the rounds left and `base + i`.
unfoldable pub xor_rest : (ℕ → ℕ) → List ℕ → ℕ → ℕ → List ℕ → List ℕ
xor_rest f src zero i dst = dst
xor_rest f src (suc n) i dst = xor_rest f src n (i + 1) (xor_at f src i dst)

unfoldable pub xor_slice : (ℕ → ℕ) → List ℕ → List ℕ → List ℕ
xor_slice f src dst =
    let chunks = length dst / 8 in
    let rem = length dst % 8 in xor_rest f src rem (chunks * 8) (xor_chunks f src chunks 0 dst)

-- What the general path adds for a byte of the source, by the logarithm of the scalar.
unfoldable pub scaled : ℕ → ℕ → ℕ
scaled log_s s = if s == 0 then 0 else exp_at (log_s + log_at s)

-- As in a release build, which leaves out the assertion at the head that the two lengths are the same
-- (in a debug build any other lengths are a panic). `none` is the panic of an index beyond a source
-- that is shorter than the destination; a longer source is read as far as the destination goes.
unfoldable pub mul_add_slice : List ℕ → List ℕ → ℕ → Option (List ℕ)
mul_add_slice dst src scalar =
    if scalar == 0
    then some dst
    else if ltb (length src) (length dst)
    then none
    else if scalar == 1
    then some (xor_slice (λ s. s) src dst)
    else some (xor_slice (scaled (log_at scalar)) src dst)
