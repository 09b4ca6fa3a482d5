-- ===== src/Fec/Encoder.antt =====
-- src/fec/codec.rs: the encoder. It gathers `k` source payloads of a group, and then makes `r` repair
-- symbols of them.
pub mod Repairs
pub mod Fractions
pub mod Cauchy
mod Tests
use seam.Prelude.{
  ℕ, zero, suc, ◌+◌, ◌-◌, ◌*◌, ◌%◌, max, List, [], ◌∷◌, ◌++◌, Option, none, some, Bool, true, false,
  ◌==◌, if◌then◌else◌, length, take, get_or, replicate, map,
}
use seam.Prelude.Bits.{bit_xor}
use seam.Prelude.Bytes.{u8_mod, u16_mod, u32_mod}
use seam.Fec.Field.{inv, mul_add_slice}
use seam.Fec.Wire.{FecRepairData}

-- "Cauchy matrix element: C[i][j] = 1 / (i XOR (r + j))"
unfoldable pub cauchy : ℕ → ℕ → ℕ → Option ℕ
cauchy i j r = inv (bit_xor i ((r + j) % u8_mod))

pub record FecEncoder : Type 0 where
  pub group_id : ℕ
  pub k : ℕ
  pub r : ℕ
  pub sources : List (List ℕ)
  pub padded_len : ℕ
  pub source_idx : ℕ

unfoldable pub new : ℕ → ℕ → ℕ → FecEncoder
new group_id k r = record {
  group_id = group_id;
  k = k;
  r = r;
  sources = [];
  padded_len = 0;
  source_idx = 0;
}

-- `Vec::resize(len, 0)`
abbrev pub resize : ℕ → List ℕ → List ℕ
resize len xs = take len xs ++ replicate (len - length xs) 0

abbrev and_then {ℓ κ} : {A : Type ℓ} {B : Type κ} → Option A → (A → Option B) → Option B
and_then none f = none
and_then (some a) f = f a

-- The loop over the sources from `j` on, which adds to the symbol `sym`. `none` is the panic of
-- `expect` where an element of the matrix has no inverse, and that of an index.
unfoldable pub add_sources : ℕ → ℕ → ℕ → ℕ → List (List ℕ) → List ℕ → Option (List ℕ)
add_sources i r zero j sources sym = some sym
add_sources i r (suc n) j sources sym =
    let rest : List ℕ → Option (List ℕ) = add_sources i r n (j + 1) sources in
    and_then (cauchy i j r) (λ c. and_then (mul_add_slice sym (get_or sources j []) c) rest)

-- The repair packet with the symbol `sym`.
abbrev pub repair_data : FecEncoder → ℕ → ℕ → List ℕ → FecRepairData
repair_data e actual_k i sym = record {
  group_id = e.group_id;
  repair_idx = i;
  k = actual_k;
  r = e.r;
  padded_len = e.padded_len % u16_mod;
  contents = sym;
}

-- The loop over the repair symbols from `i` on.
unfoldable pub make_repairs : FecEncoder → ℕ → List (List ℕ) → ℕ → ℕ → Option (List FecRepairData)
make_repairs e actual_k padded zero i = some []
make_repairs e actual_k padded (suc n) i =
    let rest = make_repairs e actual_k padded n (i + 1) in
    and_then (add_sources i e.r actual_k 0 padded (replicate e.padded_len 0))
      (λ sym. and_then rest (λ repairs. some (repair_data e actual_k i sym ∷ repairs)))

unfoldable pub emit_repairs : FecEncoder → ℕ → Option (List FecRepairData × FecEncoder)
emit_repairs e actual_k =
    and_then (make_repairs e actual_k (map (resize e.padded_len) e.sources) e.r 0) (λ repairs.
      some (
        repairs,
        record e {
          group_id = (e.group_id + 1) % u32_mod;
          sources = [];
          padded_len = 0;
          source_idx = 0;
        },
      ))

abbrev ready :
    Option (List FecRepairData × FecEncoder) → Option (Option (List FecRepairData) × FecEncoder)
ready none = none
ready (some (repairs, e)) = some (some repairs, e)

-- "Returns r repair symbols when k sources accumulated."
unfoldable pub push_source : FecEncoder → List ℕ → Option (Option (List FecRepairData) × FecEncoder)
push_source e payload =
    let e' = record e {
      padded_len = max e.padded_len (length payload);
      sources = e.sources ++ (payload ∷ []);
      source_idx = (e.source_idx + 1) % u8_mod;
    } in
    if length e'.sources == e.k then ready (emit_repairs e' e.k) else some (none, e')

-- "Force flush a partial group (end of stream)."
pub flush : FecEncoder → Option (Option (List FecRepairData) × FecEncoder)
flush e =
    if length e.sources == 0
    then some (none, e)
    else ready (emit_repairs e (length e.sources % u8_mod))
