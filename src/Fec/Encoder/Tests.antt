-- ===== src/Fec/Encoder/Tests.antt =====
-- Instances of the theorems about the encoder of src/fec/codec.rs.
use seam.Prelude.{zero, suc, List, [], ◌∷◌, some, ◌≡◌, arith, length}
use seam.Fec.Wire.{FecRepairData}
use seam.Fec.Encoder.{FecEncoder, emit_repairs}
use seam.Fec.Encoder.Repairs.{AllBytes, AreRepairs, emit_repairs-AreRepairs}

-- Two sources of different lengths, and one repair symbol.
abbrev full : FecEncoder
full = record {
  group_id = 9;
  k = 2;
  r = 1;
  sources = (1 ∷ 2 ∷ []) ∷ (200 ∷ []) ∷ [];
  padded_len = 2;
  source_idx = 2;
}

full-AllBytes : AllBytes full.sources
full-AllBytes zero zero = omega arith
full-AllBytes zero (suc zero) = omega arith
full-AllBytes zero (suc (suc p)) = omega arith
full-AllBytes (suc zero) zero = omega arith
full-AllBytes (suc zero) (suc p) = omega arith
full-AllBytes (suc (suc j)) p = omega arith

emit_repairs-AreRepairs_example :
    (repairs : List FecRepairData) × (emit_repairs full 2
      ≡ some (repairs, record full { group_id = 10; sources = []; padded_len = 0; source_idx = 0 }))
    × (length repairs ≡ 1)
    × AreRepairs full 2 0 repairs
emit_repairs-AreRepairs_example =
    emit_repairs-AreRepairs full 2 full-AllBytes (omega arith) (omega arith)
