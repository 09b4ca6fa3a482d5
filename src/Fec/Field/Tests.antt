-- ===== src/Fec/Field/Tests.antt =====
-- Instances of the theorems about src/fec/gf.rs.
use seam.Prelude.{
  ℕ, zero, suc, ◌<◌, List, [], ◌∷◌, ◌≡◌, ◌⊎◌, none, some, refl, arith, length, get_or,
}
use seam.Fec.Field.{add, mul, inv, mul_add_slice, exp_at, log_at, build_tables, build_loop}
use seam.Fec.Field.Laws.{field_laws}
use seam.Fec.Field.Slices.{mul_add_slice-at}

mul_two : mul 2 0x80 ≡ 0x1d
unfolding mul exp_at log_at build_tables build_loop
mul_two = refl

abbrev sources : List ℕ
sources = 1 ∷ 2 ∷ 3 ∷ 4 ∷ 5 ∷ 6 ∷ 7 ∷ 8 ∷ 9 ∷ []

abbrev targets : List ℕ
targets = 9 ∷ 8 ∷ 7 ∷ 6 ∷ 5 ∷ 4 ∷ 3 ∷ 2 ∷ 1 ∷ []

sources_small : (i : ℕ) → get_or sources i 0 < 256
sources_small zero = omega arith
sources_small (suc zero) = omega arith
sources_small (suc (suc zero)) = omega arith
sources_small (suc (suc (suc zero))) = omega arith
sources_small (suc (suc (suc (suc zero)))) = omega arith
sources_small (suc (suc (suc (suc (suc zero))))) = omega arith
sources_small (suc (suc (suc (suc (suc (suc zero)))))) = omega arith
sources_small (suc (suc (suc (suc (suc (suc (suc zero))))))) = omega arith
sources_small (suc (suc (suc (suc (suc (suc (suc (suc zero)))))))) = omega arith
sources_small (suc (suc (suc (suc (suc (suc (suc (suc (suc i))))))))) = omega arith

mul_add_slice-at_example :
    (out : List ℕ) × (mul_add_slice targets sources 3 ≡ some out)
    × (length out ≡ length targets)
    × ((j : ℕ)
        → j < length targets
        → get_or out j 0 ≡ add (get_or targets j 0) (mul 3 (get_or sources j 0)))
mul_add_slice-at_example = mul_add_slice-at targets sources 3 (omega arith) sources_small

field_laws_example :
    (mul 7 (add 9 200) ≡ add (mul 7 9) (mul 7 200))
    × (mul (mul 7 9) 200 ≡ mul 7 (mul 9 200))
    × (mul 7 9 ≡ mul 9 7)
    × (mul 1 7 ≡ 7)
    × (((◌≡◌ {A = ℕ} 7 0) × (inv 7 ≡ none)) ⊎ ((y : ℕ) × (inv 7 ≡ some y) × (mul 7 y ≡ 1)))
field_laws_example = field_laws 7 9 200 (omega arith) (omega arith) (omega arith)
