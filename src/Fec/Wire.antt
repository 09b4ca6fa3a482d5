-- ===== src/Fec/Wire.antt =====
-- src/fec/codec.rs: the bytes of a repair packet, and the envelope before a source packet.
pub mod RoundTrip
use seam.Prelude.{
  ℕ, ◌+◌, List, [], ◌∷◌, ◌++◌, Option, none, some, ltb, if◌then◌else◌, length, drop, get_or,
}
use seam.Prelude.Bytes.{to_le, from_le, slice}

abbrev pub fec_source_hdr : ℕ
fec_source_hdr = 7

abbrev pub fec_repair_hdr : ℕ
fec_repair_hdr = 9

pub record FecRepairData : Type 0 where
  pub group_id : ℕ
  pub repair_idx : ℕ
  pub k : ℕ
  pub r : ℕ
  pub padded_len : ℕ
  pub contents : List ℕ

pub repair_to_bytes : FecRepairData → List ℕ
repair_to_bytes d =
    to_le 4 d.group_id ++ (d.repair_idx ∷ d.k ∷ d.r ∷ (to_le 2 d.padded_len ++ d.contents))

pub repair_from_bytes : List ℕ → Option FecRepairData
repair_from_bytes buf =
    let padded_len = from_le (slice buf 7 9) in
    if ltb (length buf) fec_repair_hdr
    then none
    else if ltb (length buf) (fec_repair_hdr + padded_len)
    then none
    else some (record {
      group_id = from_le (slice buf 0 4);
      repair_idx = get_or buf 4 0;
      k = get_or buf 5 0;
      r = get_or buf 6 0;
      padded_len = padded_len;
      contents = slice buf fec_repair_hdr (fec_repair_hdr + padded_len);
    })

-- The envelope reads four fields of the encoder, which are its arguments here.
pub source_envelope : (group_id source_idx k r : ℕ) → List ℕ
source_envelope group_id source_idx k r = to_le 4 group_id ++ (source_idx ∷ k ∷ r ∷ [])

-- The group, the index in it, `k`, `r` and the payload.
pub parse_source_envelope : List ℕ → Option (ℕ × ℕ × ℕ × ℕ × List ℕ)
parse_source_envelope buf =
    if ltb (length buf) fec_source_hdr
    then none
    else some (
      from_le (slice buf 0 4),
      get_or buf 4 0,
      get_or buf 5 0,
      get_or buf 6 0,
      drop fec_source_hdr buf,
    )
