-- ===== src/Fec/Decoder/Tests.antt =====
-- Runs of the decoder of src/fec/codec.rs.
use seam.Fec.Decoder.Padding.{add_repair-panics}
use seam.Fec.Wire.{FecRepairData}
use seam.Fec.Encoder
use seam.Fec.Encoder.Repairs.{AllBytes}
use seam.Prelude.{arith, zero, suc, none, [], ◌∷◌, some, ◌≡◌, refl, true, false}
use seam.Fec.Field.{
  mul, inv, mul_add_slice, xor_slice, xor_chunks, xor_eight, xor_rest, xor_at, scaled, exp_at,
  log_at, build_tables, build_loop,
}
use seam.Fec.Encoder.{FecEncoder, push_source, cauchy}
use seam.Fec.Decoder.{
  FecDecoder, GroupState, new, add_source, add_repair, try_recover, solve, build_rows, cauchy_row,
  missing_from, gauss_rhs, gauss_loop, find_pivot, eliminate, add_row,
}

-- Of the sources (1, 2) and (200, 0), the first is lost; the repair symbol is that of the encoder.
abbrev lost_first : GroupState
lost_first = record {
  k = 2;
  r = 1;
  padded_len = 2;
  sources = (1, 200 ∷ 0 ∷ []) ∷ [];
  repairs = (0, 101 ∷ 2 ∷ []) ∷ [];
  recovered = false;
}

recovers-first :
    try_recover lost_first
    ≡ some (some ((0, 1 ∷ 2 ∷ []) ∷ []), record lost_first { recovered = true })
unfolding try_recover solve build_rows cauchy_row cauchy missing_from gauss_rhs gauss_loop
    find_pivot eliminate add_row mul inv mul_add_slice xor_slice xor_chunks xor_eight xor_rest
    xor_at scaled exp_at log_at build_tables build_loop
recovers-first = refl

sources_small : AllBytes ((1 ∷ []) ∷ (5 ∷ 2 ∷ []) ∷ [])
sources_small zero zero = omega arith
sources_small zero (suc p) = omega arith
sources_small (suc zero) zero = omega arith
sources_small (suc zero) (suc zero) = omega arith
sources_small (suc zero) (suc (suc p)) = omega arith
sources_small (suc (suc j)) p = omega arith

add_repair-panics_example :
    (half : FecEncoder) × (done : FecEncoder) × (d : FecRepairData) × (w : FecDecoder)
    × (push_source (Encoder.new 7 2 1) (1 ∷ []) ≡ some (none, half))
    × (push_source half (5 ∷ 2 ∷ []) ≡ some (some (d ∷ []), done))
    × (add_source new 7 0 2 1 (1 ∷ []) ≡ some (none, w))
    × (add_repair w d ≡ none)
add_repair-panics_example =
    add_repair-panics 7 (1 ∷ []) (5 ∷ 2 ∷ []) sources_small (omega arith) (omega arith)
