-- ===== src/Fec/Decoder/Taking.antt =====
-- What the decoder of src/fec/codec.rs does with one packet of a group of sources of one length.
use seam.Prelude.{
  ℕ, zero, suc, ◌-◌, ◌<◌, max, List, [], ◌∷◌, ◌++◌, ◌≡◌, refl, ap, ◌∙◌, arith, length, take, get_or,
  replicate,
}
use seam.Prelude.Map.{insert}
use seam.Fec.Wire.{FecRepairData}
use seam.Fec.Encoder.{resize}
use seam.Fec.Decoder.{
  Rows, GroupState, new_group, group_or_new, FecDecoder, add_source, add_repair, stored,
  try_recover,
}
use seam.Fec.Decoder.Rows.{Shape}
use seam.Fec.Decoder.Building.{IsRepair}

-- A packet of a group, as it reaches the decoder.
pub data Delivery : Type 0 where
  source : ℕ → List ℕ → Delivery
  repair : FecRepairData → Delivery

-- A packet of the group of `sources`: a source, or a repair symbol as the encoder makes it.
abbrev pub Belongs : (group_id k r w : ℕ) → Rows → Delivery → Type 0
Belongs group_id k r w sources (source i payload) = (i < k) × (payload ≡ get_or sources i [])
Belongs group_id k r w sources (repair packet) =
    (packet.group_id ≡ group_id)
    × (packet.k ≡ k)
    × (packet.r ≡ r)
    × (packet.padded_len ≡ w)
    × IsRepair k r w sources packet.repair_idx packet.contents

abbrev pub AllBelong : (group_id k r w : ℕ) → Rows → List Delivery → Type 0
AllBelong group_id k r w sources [] = Unit
AllBelong group_id k r w sources (p ∷ ps) =
    Belongs group_id k r w sources p × AllBelong group_id k r w sources ps

pub resize_same : (n : ℕ) (xs : List ℕ) → length xs ≡ n → resize n xs ≡ xs
resize_same zero [] h = refl
resize_same zero (x ∷ xs) h = absurd (omega (arith, h))
resize_same (suc n) [] h = absurd (omega (arith, h))
resize_same (suc n) (x ∷ xs) h =
    let fewer : suc n - suc (length xs) ≡ n - length xs = omega arith in
    (λ t. x ∷ (take n xs ++ replicate (fewer t) 0))
    ∙ ap (◌∷◌ x) (resize_same n xs (omega (arith, h)))

module _ (group_id k r w : ℕ) (sources : Rows) (shape : Shape k w sources) where
  unfoldable pub group : FecDecoder → GroupState
  group d = group_or_new d group_id (new_group k r w)

  unfoldable pub with_source : FecDecoder → ℕ → GroupState
  with_source d i = record (group d) {
    padded_len = w;
    sources = insert i (get_or sources i []) (group d).sources;
  }

  unfoldable pub with_repair : FecDecoder → FecRepairData → GroupState
  with_repair d packet = record (group d) {
    padded_len = w;
    repairs = insert packet.repair_idx packet.contents (group d).repairs;
  }

  -- What `add_source` hands to the attempt at recovery, where the source has the length of the group.
  pub add_source_lem :
      (d : FecDecoder) (i : ℕ) (payload : List ℕ)
      → (group d).padded_len ≡ w
      → i < k
      → payload ≡ get_or sources i []
      → add_source d group_id i k r payload ≡ stored d group_id (try_recover (with_source d i))
  unfolding add_source with_source group
  add_source_lem d i payload len h same =
      let row = get_or sources i [] in
      let long = shape.wide i h in
      let kept : max (group d).padded_len w ≡ w = omega (arith, len) in
      (λ t. add_source d group_id i k r (same t))
      ∙ (λ t.
          let g = group_or_new d group_id (new_group k r (long t)) in
          stored d group_id (
            try_recover (record g {
              padded_len = max g.padded_len (long t);
              sources = insert i (resize (max g.padded_len (long t)) row) g.sources;
            })))
      ∙ (λ t. stored d group_id (
          try_recover (record (group d) {
            padded_len = kept t;
            sources = insert i (resize (kept t) row) (group d).sources;
          })))
      ∙ ap
          (λ x. stored d group_id (
            try_recover
              (record (group d) { padded_len = w; sources = insert i x (group d).sources })))
          (resize_same w row long)

  pub add_repair_lem :
      (d : FecDecoder) (packet : FecRepairData)
      → (group d).padded_len ≡ w
      → Belongs group_id k r w sources (repair packet)
      → add_repair d packet ≡ stored d group_id (try_recover (with_repair d packet))
  unfolding add_repair with_repair group
  add_repair_lem d packet len (id_same, k_is, r_is, w_is, right) =
      let kept : max (group d).padded_len w ≡ w = omega (arith, len) in
      let index = packet.repair_idx in
      (λ t.
        let g = group_or_new d (id_same t) (new_group (k_is t) (r_is t) (w_is t)) in
        stored d (id_same t) (
          try_recover (record g {
            padded_len = max g.padded_len (w_is t);
            repairs = insert index (resize (max g.padded_len (w_is t)) packet.contents) g.repairs;
          })))
      ∙ (λ t. stored d group_id (
          try_recover (record (group d) {
            padded_len = kept t;
            repairs = insert index (resize (kept t) packet.contents) (group d).repairs;
          })))
      ∙ ap
          (λ x. stored d group_id (
            try_recover
              (record (group d) { padded_len = w; repairs = insert index x (group d).repairs })))
          (resize_same w packet.contents right.size)
