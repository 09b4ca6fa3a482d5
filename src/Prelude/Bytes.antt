-- ===== src/Prelude/Bytes.antt =====
-- Machine words as bytes: what `to_le_bytes`, `from_le_bytes` and slices of the standard library do.
use Prim.Native.Nat.{ℕ, zero, suc, ◌+◌, ◌-◌, ◌*◌, ◌/◌, ◌%◌, ◌^◌, ◌<◌}
use mathlib.Core.Path.{◌≡◌, refl, ap}
use mathlib.Core.List.{List, [], ◌∷◌, ◌++◌}
use native.Mathlib.Nat.{pow-suc}
use native.Mathlib.Omega.{arith}
use seam.Prelude.Lists.{length, take, drop}

abbrev pub u8_mod : ℕ
u8_mod = 256

abbrev pub u16_mod : ℕ
u16_mod = 65_536

abbrev pub u32_mod : ℕ
u32_mod = 4_294_967_296

abbrev pub u64_mod : ℕ
u64_mod = 18_446_744_073_709_551_616

abbrev pub u64_max : ℕ
u64_max = 18_446_744_073_709_551_615

-- `to_le_bytes` of a word of `n` bytes.
pub to_le : ℕ → ℕ → List ℕ
to_le zero v = []
to_le (suc n) v = v % 256 ∷ to_le n (v / 256)

unfoldable pub from_le : List ℕ → ℕ
from_le [] = 0
from_le (b ∷ bs) = b + 256 * from_le bs

-- `xs[from..to]`, within bounds.
abbrev pub slice {ℓ} : {A : Type ℓ} → List A → ℕ → ℕ → List A
slice xs from to = take (to - from) (drop from xs)

pub length-to_le : (n v : ℕ) → length (to_le n v) ≡ n
unfolding to_le
length-to_le zero v = refl
length-to_le (suc n) v = ap suc (length-to_le n (v / 256))

pub from_le-to_le : (n v : ℕ) → v < 256 ^ n → from_le (to_le n v) ≡ v
unfolding to_le from_le
from_le-to_le zero v h = omega arith
from_le-to_le (suc n) v h = omega (arith, from_le-to_le n (v / 256) (omega (arith, pow-suc 256 n)))

-- A word at the front of a buffer, and what follows it.
pub take-to_le : (n v : ℕ) (rest : List ℕ) → take n (to_le n v ++ rest) ≡ to_le n v
unfolding to_le
take-to_le zero v rest = refl
take-to_le (suc n) v rest = ap (◌∷◌ (v % 256)) (take-to_le n (v / 256) rest)

pub drop-to_le : (n v : ℕ) (rest : List ℕ) → drop n (to_le n v ++ rest) ≡ rest
unfolding to_le
drop-to_le zero v rest = refl
drop-to_le (suc n) v rest = drop-to_le n (v / 256) rest
