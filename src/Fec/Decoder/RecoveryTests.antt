-- ===== src/Fec/Decoder/RecoveryTests.antt =====
-- Instances of the theorems about recovery by the decoder of src/fec/codec.rs.
use seam.Prelude.{
  zero, suc, ℕ, ◌+◌, ◌<◌, List, [], ◌∷◌, none, some, ◌≡◌, ◌⊎◌, ◌||◌, if◌then◌else◌, ltb, inl, refl,
  sym, ◌∙◌, true, false, arith, length, get_or,
}
use mathlib.Core.Path.{subst}
use seam.Prelude.Map.{lookup}
use seam.Fec.Wire.{FecRepairData}
use seam.Fec.Field.{
  add, mul, inv, mul_add_slice, xor_slice, xor_chunks, xor_eight, xor_rest, xor_at, scaled, exp_at,
  log_at, build_tables, build_loop,
}
use seam.Fec.Field.Sums.{Bytes, dot}
use seam.Fec.Encoder.{FecEncoder, emit_repairs, make_repairs, add_sources, cauchy}
use seam.Fec.Encoder.Repairs.{AllBytes, weighted}
use seam.Fec.Decoder.{
  Rows, GroupState, FecDecoder, new, try_recover, solved, missing_from, gauss_rhs, entry,
}
use seam.Fec.Decoder.Rows.{Shape}
use seam.Fec.Decoder.Equations.{Solved, swap-Solved}
use seam.Fec.Decoder.Elimination.{gauss_rhs-solves}
use seam.Fec.Decoder.Building.{IsRepair, RowRight, unit-RowRight, dot-unit}
use seam.Fec.Decoder.System.{Received}
use seam.Fec.Decoder.Recovery.{try_recover-decides}
use seam.Fec.Decoder.Groups.{Sources, AreRight, Has}
use seam.Fec.Decoder.Taking.{source, repair}
use seam.Fec.Decoder.Deliveries.{deliver_all, arrived}
use seam.Fec.Decoder.EndToEnd.{emit_repairs-restores}

-- Two sources of two bytes, and one repair symbol.
abbrev pair : Rows
pair = (1 ∷ 2 ∷ []) ∷ (200 ∷ 7 ∷ []) ∷ []

pair-AllBytes : AllBytes pair
pair-AllBytes zero zero = omega arith
pair-AllBytes zero (suc zero) = omega arith
pair-AllBytes zero (suc (suc p)) = omega arith
pair-AllBytes (suc zero) zero = omega arith
pair-AllBytes (suc zero) (suc zero) = omega arith
pair-AllBytes (suc zero) (suc (suc p)) = omega arith
pair-AllBytes (suc (suc j)) p = omega arith

pair-wide : (t : ℕ) → t < 2 → length (get_or pair t []) ≡ 2
pair-wide zero h = refl
pair-wide (suc zero) h = refl
pair-wide (suc (suc t)) h = absurd (omega arith)

pair-Shape : Shape 2 2 pair
pair-Shape = record { size = refl; wide = pair-wide; bytes = pair-AllBytes }

abbrev encoding : FecEncoder
encoding = record { group_id = 9; k = 2; r = 1; sources = pair; padded_len = 2; source_idx = 2 }

abbrev symbol : FecRepairData
symbol = record {
  group_id = 9;
  repair_idx = 0;
  k = 2;
  r = 1;
  padded_len = 2;
  contents = 101 ∷ 143 ∷ [];
}

abbrev encoded : FecEncoder
encoded = record encoding { group_id = 10; sources = []; padded_len = 0; source_idx = 0 }

encoding-made : emit_repairs encoding 2 ≡ some (symbol ∷ [], encoded)
unfolding emit_repairs make_repairs add_sources cauchy mul inv mul_add_slice xor_slice xor_chunks
    xor_eight xor_rest xor_at scaled exp_at log_at build_tables build_loop
encoding-made = refl

-- The first source is lost, and the other packets arrive out of order.
emit_repairs-restores_example :
    (out : Sources) × (d : FecDecoder) × (deliver_all 9 2 1 new
        (repair symbol ∷ source 1 (200 ∷ 7 ∷ []) ∷ [])
      ≡ some (out, d))
    × AreRight pair out
    × ((arrived (repair symbol ∷ source 1 (200 ∷ 7 ∷ []) ∷ []) 0 ≡ true) ⊎ Has 0 out)
emit_repairs-restores_example =
    emit_repairs-restores encoding 2 pair-Shape refl (omega arith) (omega arith) (omega arith)
      (symbol ∷ []) encoded (repair symbol ∷ source 1 (200 ∷ 7 ∷ []) ∷ []) encoding-made
      (inl refl, ((omega arith, refl), tt)) (omega arith) 0 (omega arith)

abbrev lost_first : GroupState
lost_first = record {
  k = 2;
  r = 1;
  padded_len = 2;
  sources = (1, 200 ∷ 7 ∷ []) ∷ [];
  repairs = (0, 101 ∷ 143 ∷ []) ∷ [];
  recovered = false;
}

symbol-at : (p : ℕ) → p < 2 → get_or (101 ∷ 143 ∷ []) p 0 ≡ weighted 0 1 2 0 pair p 0
unfolding cauchy mul inv add exp_at log_at build_tables build_loop
symbol-at zero h = refl
symbol-at (suc zero) h = refl
symbol-at (suc (suc p)) h = absurd (omega arith)

symbol-IsRepair : IsRepair 2 1 2 pair 0 (101 ∷ 143 ∷ [])
symbol-IsRepair = record { below = omega arith; size = refl; at = symbol-at }

only_second :
    (i : ℕ) (d : List ℕ) → lookup i lost_first.sources ≡ some d → (i < 2) × (d ≡ get_or pair i [])
only_second zero d e = absurd (ground arith)
only_second (suc zero) d e = (omega arith, cc)
only_second (suc (suc i)) d e = absurd (ground arith)

only_symbol : (i : ℕ) (d : List ℕ) → lookup i lost_first.repairs ≡ some d → IsRepair 2 1 2 pair i d
only_symbol zero d e = subst (IsRepair 2 1 2 pair 0) (cc) symbol-IsRepair
only_symbol (suc i) d e = absurd (ground arith)

lost_first-Received : Received 2 pair lost_first
lost_first-Received = record {
  shape = pair-Shape;
  room = omega arith;
  sources_up = (omega arith, tt);
  repairs_up = (omega arith, tt);
  each_source = only_second;
  each_repair = only_symbol;
}

try_recover-decides_example : try_recover lost_first ≡ (
    if lost_first.recovered || ltb (length lost_first.sources + length lost_first.repairs) 2
    then some (none, lost_first)
    else some (
      some (solved pair (missing_from lost_first.sources 2 0)),
      record lost_first { recovered = true },
    ))
try_recover-decides_example = try_recover-decides 2 pair lost_first lost_first-Received

-- The unit matrix, and with its rows crossed, so that the first row has no pivot in the first column.
abbrev straight : Rows
straight = (1 ∷ 0 ∷ []) ∷ (0 ∷ 1 ∷ []) ∷ []

abbrev crossed : Rows
crossed = (0 ∷ 1 ∷ []) ∷ (1 ∷ 0 ∷ []) ∷ []

abbrev crossed_pair : Rows
crossed_pair = (200 ∷ 7 ∷ []) ∷ (1 ∷ 2 ∷ []) ∷ []

straight-row : (i : ℕ) → i < 2 → RowRight 2 2 pair (get_or straight i []) (get_or pair i [])
straight-row zero h = unit-RowRight 2 2 pair 0 pair-Shape (omega arith)
straight-row (suc zero) h = unit-RowRight 2 2 pair 1 pair-Shape (omega arith)
straight-row (suc (suc i)) h = absurd (omega arith)

straight-dot : (v : ℕ → ℕ) → Bytes v → (i : ℕ) → i < 2 → dot 2 (entry straight i) v ≡ v i
straight-dot v b zero h = dot-unit 2 0 v b (omega arith)
straight-dot v b (suc zero) h = dot-unit 2 1 v b (omega arith)
straight-dot v b (suc (suc i)) h = absurd (omega arith)

straight-AllBytes : AllBytes straight
straight-AllBytes zero p = (straight-row 0 (omega arith)).row_bytes p
straight-AllBytes (suc zero) p = (straight-row 1 (omega arith)).row_bytes p
straight-AllBytes (suc (suc j)) p = omega arith

crossed-Solved : Solved 2 2 (entry pair) crossed crossed_pair
crossed-Solved =
    swap-Solved 2 2 (entry pair) pair-AllBytes 0 1 straight pair
      (record {
        left = record {
          size = refl;
          wide = λ t h. (straight-row t h).long;
          bytes = straight-AllBytes;
        };
        right = pair-Shape;
        solves = λ i p h. (straight-row i h).solves p;
        regular = λ v b zeros j h. sym (straight-dot v b j h) ∙ zeros j h;
      })
      (omega arith) (omega arith)

gauss_rhs-solves_example :
    (mat' : Rows) × (rhs' : Rows) × (gauss_rhs crossed crossed_pair 2 ≡ some (some (mat', rhs')))
    × Shape 2 2 rhs'
    × ((i p : ℕ) → i < 2 → p < 2 → entry rhs' i p ≡ entry pair i p)
gauss_rhs-solves_example =
    gauss_rhs-solves 2 2 (entry pair) pair-AllBytes crossed crossed_pair crossed-Solved
