-- ===== src/Fec/Wire/RoundTrip.antt =====
-- Repair packets and envelopes of src/fec/codec.rs through their bytes.
use mathlib.Core.List.{append-nil, append_assoc}
use seam.Prelude.{
  ℕ, zero, suc, ◌+◌, ◌≤◌, ◌<◌, List, [], ◌∷◌, ◌++◌, some, false, ◌≡◌, sym, ap, ◌∙◌, arith, ltb,
  length, drop, get_or, length-append,
}
use seam.Prelude.Bytes.{u16_mod, u32_mod, to_le, from_le, slice, length-to_le, from_le-to_le}
use seam.Prelude.Splice.{slice-front, slice-skip, drop-front}
use seam.Fec.Wire.{
  FecRepairData, repair_to_bytes, repair_from_bytes, source_envelope, parse_source_envelope,
}

get_or-skip :
    (a rest : List ℕ) (n i d : ℕ) → length a ≡ n → get_or (a ++ rest) (n + i) d ≡ get_or rest i d
get_or-skip [] rest n i d h = ap (λ k. get_or rest k d) (omega arith)
get_or-skip (x ∷ a) rest zero i d h = absurd (omega arith)
get_or-skip (x ∷ a) rest (suc n) i d h =
    ap (λ k. get_or (x ∷ (a ++ rest)) k d) {y = suc (n + i)} (omega arith)
    ∙ get_or-skip a rest n i d (omega arith)

long : (a b : ℕ) → b ≤ a → ltb a b ≡ false
long a b h = ground arith

-- The four fields at the front, which both formats share.
module _ (g i k r : ℕ) (body : List ℕ) (hg : g < u32_mod) where
  abbrev packet : List ℕ
  packet = to_le 4 g ++ (i ∷ k ∷ r ∷ body)

  group_lem : from_le (slice packet 0 4) ≡ g
  group_lem = ap from_le (slice-front (to_le 4 g) _ 4 (length-to_le 4 g)) ∙ from_le-to_le 4 g hg

  index_lem : get_or packet 4 0 ≡ i
  index_lem = get_or-skip (to_le 4 g) (i ∷ k ∷ r ∷ body) 4 0 0 (length-to_le 4 g)

  k_lem : get_or packet 5 0 ≡ k
  k_lem = get_or-skip (to_le 4 g) (i ∷ k ∷ r ∷ body) 4 1 0 (length-to_le 4 g)

  r_lem : get_or packet 6 0 ≡ r
  r_lem = get_or-skip (to_le 4 g) (i ∷ k ∷ r ∷ body) 4 2 0 (length-to_le 4 g)

  length-packet : length packet ≡ 7 + length body
  length-packet = omega (arith, length-append (to_le 4 g) (i ∷ k ∷ r ∷ body), length-to_le 4 g)

-- The payload of a source packet and the fields before it come back from the envelope.
pub parse_source_envelope-source_envelope :
    (group_id source_idx k r : ℕ) (payload : List ℕ)
    → group_id < u32_mod
    → parse_source_envelope (source_envelope group_id source_idx k r ++ payload)
      ≡ some (group_id, source_idx, k, r, payload)
unfolding parse_source_envelope source_envelope
parse_source_envelope-source_envelope g i k r payload h =
    ap parse_source_envelope (append_assoc (to_le 4 g) (i ∷ k ∷ r ∷ []) payload)
    ∙ rw
        (long (length (packet g i k r payload h)) 7
          (omega (arith, length-packet g i k r payload h)))
        (λ t. some (
          group_lem g i k r payload h t,
          index_lem g i k r payload h t,
          k_lem g i k r payload h t,
          r_lem g i k r payload h t,
          rest t,
        ))
  where
    rest : drop 7 (to_le 4 g ++ (i ∷ k ∷ r ∷ payload)) ≡ payload
    rest =
        ap (drop 7) (sym (append_assoc (to_le 4 g) (i ∷ k ∷ r ∷ []) payload))
        ∙ drop-front (to_le 4 g ++ (i ∷ k ∷ r ∷ [])) payload 7
            (omega (arith, length-append (to_le 4 g) (i ∷ k ∷ r ∷ []), length-to_le 4 g))

-- The length and the data of a repair packet, after its first seven bytes.
module _ (g i k r p : ℕ) (contents : List ℕ) (hp : p < u16_mod) (hl : length contents ≡ p) where
  abbrev repair : List ℕ
  repair = to_le 4 g ++ (i ∷ k ∷ r ∷ (to_le 2 p ++ contents))

  front : List ℕ
  front = to_le 4 g ++ (i ∷ k ∷ r ∷ [])

  length-front : length front ≡ 7
  unfolding front
  length-front = omega (arith, length-append (to_le 4 g) (i ∷ k ∷ r ∷ []), length-to_le 4 g)

  regroup : repair ≡ front ++ (to_le 2 p ++ contents)
  unfolding front
  regroup = sym (append_assoc (to_le 4 g) (i ∷ k ∷ r ∷ []) (to_le 2 p ++ contents))

  padded_lem : from_le (slice repair 7 9) ≡ p
  padded_lem =
      ap from_le (
        ap (λ l. slice l 7 9) regroup
        ∙ slice-skip front (to_le 2 p ++ contents) 7 0 2 length-front
        ∙ slice-front (to_le 2 p) contents 2 (length-to_le 2 p))
      ∙ from_le-to_le 2 p hp

  contents_lem : slice repair 9 (9 + p) ≡ contents
  contents_lem =
      ap (λ l. slice l 9 (9 + p)) regroup
      ∙ ap (slice (front ++ (to_le 2 p ++ contents)) 9) {x = 9 + p} {y = 7 + (2 + p)} (omega arith)
      ∙ slice-skip front (to_le 2 p ++ contents) 7 2 (2 + p) length-front
      ∙ slice-skip (to_le 2 p) contents 2 0 p (length-to_le 2 p)
      ∙ ap (λ l. slice l 0 p) (sym (append-nil contents))
      ∙ slice-front contents [] p hl

-- A repair packet whose data has the length that it states comes back from its bytes, where the
-- group's number fits 32 bits and the length 16.
pub repair_from_bytes-repair_to_bytes :
    (d : FecRepairData)
    → d.group_id < u32_mod
    → d.padded_len < u16_mod
    → length d.contents ≡ d.padded_len
    → repair_from_bytes (repair_to_bytes d) ≡ some d
unfolding repair_from_bytes repair_to_bytes
repair_from_bytes-repair_to_bytes d hg hp hl = rw (long (length whole) 9 (omega (arith, size))) (
    rw padded (
      rw (long (length whole) (9 + d.padded_len) (omega (arith, size))) (λ t. some (record {
        group_id = group_lem d.group_id d.repair_idx d.k d.r body hg t;
        repair_idx = index_lem d.group_id d.repair_idx d.k d.r body hg t;
        k = k_lem d.group_id d.repair_idx d.k d.r body hg t;
        r = r_lem d.group_id d.repair_idx d.k d.r body hg t;
        padded_len = d.padded_len;
        contents = contents_lem d.group_id d.repair_idx d.k d.r d.padded_len d.contents hp hl t;
      }))))
  where
    body : List ℕ
    body = to_le 2 d.padded_len ++ d.contents

    whole : List ℕ
    whole = repair d.group_id d.repair_idx d.k d.r d.padded_len d.contents hp hl

    padded : from_le (slice whole 7 9) ≡ d.padded_len
    padded = padded_lem d.group_id d.repair_idx d.k d.r d.padded_len d.contents hp hl

    size : length whole ≡ 9 + d.padded_len
    size = omega (
      arith,
      length-packet d.group_id d.repair_idx d.k d.r body hg,
      length-append (to_le 2 d.padded_len) d.contents,
      length-to_le 2 d.padded_len,
      hl,
    )
