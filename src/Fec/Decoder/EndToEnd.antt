-- ===== src/Fec/Decoder/EndToEnd.antt =====
-- From the encoder of src/fec/codec.rs to its decoder, over a channel that loses, repeats and reorders.
use seam.Prelude.{
  ℕ, suc, ◌+◌, ◌≤◌, ◌<◌, List, [], ◌∷◌, ◌≡◌, ◌⊎◌, inl, inr, some, refl, sym, ap, ◌∙◌, arith, true,
  length, get_or,
}
use mathlib.Core.Path.{subst}
use seam.Fec.Wire.{FecRepairData}
use seam.Fec.Encoder.{FecEncoder, emit_repairs}
use seam.Fec.Encoder.Repairs.{AreRepairs, weighted, padded, emit_repairs-AreRepairs}
use seam.Fec.Decoder.{Rows, FecDecoder, new}
use seam.Fec.Decoder.Rows.{Shape}
use seam.Fec.Decoder.Groups.{Sources, AreRight, Has}
use seam.Fec.Decoder.Taking.{Delivery, source, repair, Belongs, AllBelong, resize_same}
use seam.Fec.Decoder.Deliveries.{deliver_all, arrived}
use seam.Fec.Decoder.AnyPackets.{distinct, deliver_all-restores}

abbrev pub IsOneOf : FecRepairData → List FecRepairData → Type 0
IsOneOf d [] = ⊥
IsOneOf d (x ∷ xs) = (d ≡ x) ⊎ IsOneOf d xs

-- A packet of the group: a source, or one of the repair symbols.
abbrev pub Sent : Rows → ℕ → List FecRepairData → Delivery → Type 0
Sent sources k repairs (source i payload) = (i < k) × (payload ≡ get_or sources i [])
Sent sources k repairs (repair d) = IsOneOf d repairs

abbrev pub AllSent : Rows → ℕ → List FecRepairData → List Delivery → Type 0
AllSent sources k repairs [] = Unit
AllSent sources k repairs (p ∷ ps) = Sent sources k repairs p × AllSent sources k repairs ps

padded_same :
    (w : ℕ) (sources : Rows)
    → ((t : ℕ) → t < length sources → length (get_or sources t []) ≡ w)
    → padded w sources ≡ sources
padded_same w [] h = refl
padded_same w (x ∷ xs) h =
    λ i. resize_same w x (h 0 (omega arith)) i ∷ padded_same w xs (λ t l. h (suc t) (omega arith)) i

module _ (e : FecEncoder) (w : ℕ) (shape : Shape e.k w e.sources) (len : e.padded_len ≡ w)
    (short : w < 65_536) (room : e.r + e.k ≤ 255) (positive : 1 ≤ e.k) where
  one-Belongs :
      (i : ℕ) (repairs : List FecRepairData) (d : FecRepairData)
      → i + length repairs ≤ e.r
      → AreRepairs e e.k i repairs
      → IsOneOf d repairs
      → Belongs e.group_id e.k e.r w e.sources (repair d)
  one-Belongs i [] d h are one = absurd one
  one-Belongs i (x ∷ xs) d h are (inr one) = one-Belongs (i + 1) xs d (omega arith) are.7 one
  one-Belongs i (x ∷ xs) d h are (inl same) =
      subst (λ y. Belongs e.group_id e.k e.r w e.sources (repair y)) (sym same)
        (
          are.1,
          are.2,
          are.3,
          omega (arith, are.4, len, short),
          record {
            below = omega (arith, are.0);
            size = are.5 ∙ len;
            at = λ p l.
                are.6 p (omega (arith, len))
                ∙ ap (λ u. weighted i e.r e.k 0 u p 0)
                    (padded_same e.padded_len e.sources
                      (λ t m. shape.wide t (omega (arith, shape.size)) ∙ sym len))
                ∙ ap (λ u. weighted u e.r e.k 0 e.sources p 0) (sym are.0);
          },
        )

  all-Belong :
      (repairs : List FecRepairData) (ps : List Delivery)
      → length repairs ≡ e.r
      → AreRepairs e e.k 0 repairs
      → AllSent e.sources e.k repairs ps
      → AllBelong e.group_id e.k e.r w e.sources ps
  all-Belong repairs [] many are sent = tt
  all-Belong repairs (source i payload ∷ ps) many are sent =
      (sent.0, all-Belong repairs ps many are sent.1)
  all-Belong repairs (repair d ∷ ps) many are sent = (
    one-Belongs 0 repairs d (omega (arith, many)) are sent.0,
    all-Belong repairs ps many are sent.1,
  )

  -- The encoder makes the repair symbols of a full group of `k` sources of `w` bytes each, where `r
  -- + k` is at most 255 and `w` is below 65536. Of these sources and symbols let any packets reach
  -- the decoder, in any order and as often as they like, at least `k` of them different. The
  -- decoder takes them all without a panic; whatever it gives out is right; and every source of the
  -- group has arrived or is given out.
  pub emit_repairs-restores :
      (repairs : List FecRepairData) (e' : FecEncoder) (ps : List Delivery)
      → emit_repairs e e.k ≡ some (repairs, e')
      → AllSent e.sources e.k repairs ps
      → e.k ≤ distinct e.k e.r ps
      → (j : ℕ) → j < e.k
      → (out : Sources) × (d : FecDecoder) × (deliver_all e.group_id e.k e.r new ps ≡ some (out, d))
        × AreRight e.sources out
        × ((arrived ps j ≡ true) ⊎ Has j out)
  emit_repairs-restores repairs e' ps made sent enough j h =
      let (repairs', made', many, are) =
        emit_repairs-AreRepairs e e.k shape.bytes (omega arith) (omega (arith, shape.size)) in
      let same : repairs' ≡ repairs = cc in
      deliver_all-restores e.group_id e.k e.r w e.sources shape room positive ps
        (all-Belong repairs ps (sym (ap length same) ∙ many) (subst (AreRepairs e e.k 0) same are)
          sent)
        enough j h
