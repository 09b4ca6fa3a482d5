-- ===== src/Packet/Codes.antt =====
-- The codes of src/packet.rs: decoding inverts encoding, and refuses every other byte.
use seam.Prelude.{ℕ, ◌<◌, ◌≡◌, refl, ◌⊎◌, inl, inr, arith}
use seam.Error.{SeamError, Result, ok, err, invalid_pkt_type}
use seam.Packet.{PktType, to_u8, try_from}

-- Decoding the code of a packet type gives that type.
pub try_from-to_u8 : (t : PktType) → try_from (to_u8 t) ≡ ok t
unfolding try_from to_u8
try_from-to_u8 t = ground arith

to_u8-of_ok : (v : ℕ) (t : PktType) → try_from v ≡ ok t → to_u8 t ≡ v
unfolding try_from to_u8
to_u8-of_ok v t h = ground arith

unknown-of_err :
    (v : ℕ) (e : SeamError)
    → try_from v ≡ err e
    → (0x11 < v) × (try_from v ≡ err (invalid_pkt_type v))
unfolding try_from
unknown-of_err v e h = ground arith

split_result :
    (v : ℕ) (r : Result PktType)
    → try_from v ≡ r
    → ((t : PktType) × (try_from v ≡ ok t) × (to_u8 t ≡ v))
      ⊎ ((0x11 < v) × (try_from v ≡ err (invalid_pkt_type v)))
split_result v (ok t) h = inl (t, h, to_u8-of_ok v t h)
split_result v (err e) h = inr (unknown-of_err v e h)

-- A byte is the code of a packet type, which decoding finds, or is above 0x11 and refused by name.
pub try_from-total :
    (v : ℕ)
    → ((t : PktType) × (try_from v ≡ ok t) × (to_u8 t ≡ v))
      ⊎ ((0x11 < v) × (try_from v ≡ err (invalid_pkt_type v)))
try_from-total v = split_result v (try_from v) refl
