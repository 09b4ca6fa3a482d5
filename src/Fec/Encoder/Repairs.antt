-- ===== src/Fec/Encoder/Repairs.antt =====
-- The repair symbols of src/fec/codec.rs.
use seam.Prelude.{
  ℕ, zero, suc, ◌+◌, ◌-◌, ◌%◌, ◌≤◌, ◌<◌, List, [], ◌∷◌, ◌++◌, none, some, ◌≡◌, refl, sym, ap, ◌∙◌,
  arith, length, take, get_or, replicate, map, length-replicate, get_or-replicate, length-append,
  length-take,
}
use seam.Prelude.Bits.{bit_xor}
use seam.Prelude.Xor.{bit_xor-cancel, bit_xor-zero, bit_xor_comm}
use seam.Fec.Field.{add, mul}
use seam.Fec.Field.Tables.{inv-some}
use seam.Fec.Field.Slices.{mul_add_slice-at}
use seam.Fec.Wire.{FecRepairData}
use seam.Fec.Encoder.{
  FecEncoder, cauchy, resize, repair_data, add_sources, make_repairs, emit_repairs,
}

pub xor-equal : (a b : ℕ) → bit_xor a b ≡ 0 → a ≡ b
xor-equal a b h =
    sym (bit_xor-cancel a b) ∙ ap (λ x. bit_xor x b) h ∙ bit_xor_comm 0 b ∙ bit_xor-zero b

-- An element of the matrix exists for a row below `r`.
pub cauchy-some : (i j r : ℕ) → i < r → r + j < 256 → (c : ℕ) × (cauchy i j r ≡ some c)
unfolding cauchy
cauchy-some i j r h l =
    inv-some (bit_xor i ((r + j) % 256))
      (λ e. absurd (omega (arith, xor-equal i ((r + j) % 256) e)))

abbrev pub coefficient : ℕ → ℕ → ℕ → ℕ
coefficient i j r = elim (cauchy i j r) [ none ↦ 0 | some c ↦ c ]

pub coefficient_lem : (i j r c : ℕ) → cauchy i j r ≡ some c → coefficient i j r ≡ c
coefficient_lem i j r c h = rw (h, coefficient) refl

-- What the sources from `j` on, `n` of them, add to a byte at the place `p`.
abbrev pub weighted : ℕ → ℕ → ℕ → ℕ → List (List ℕ) → ℕ → ℕ → ℕ
weighted i r zero j sources p acc = acc
weighted i r (suc n) j sources p acc =
    weighted i r n (j + 1) sources p
      (add acc (mul (coefficient i j r) (get_or (get_or sources j []) p 0)))

abbrev pub AllBytes : List (List ℕ) → Type 0
AllBytes sources = (j p : ℕ) → get_or (get_or sources j []) p 0 < 256

-- Every source up to the `j`-th has the length `len`.
abbrev pub HaveLength : ℕ → ℕ → List (List ℕ) → Type 0
HaveLength len j sources = (t : ℕ) → t < j → length (get_or sources t []) ≡ len

module _ (i r : ℕ) (sources : List (List ℕ)) (low : i < r) (bytes : AllBytes sources) where
  Added : ℕ → ℕ → List ℕ → Type 0
  Added n j sym =
      (out : List ℕ) × (add_sources i r n j sources sym ≡ some out)
      × (length out ≡ length sym)
      × ((p : ℕ) → p < length sym → get_or out p 0 ≡ weighted i r n j sources p (get_or sym p 0))

  add_sources-Added :
      (n j : ℕ) (symbol : List ℕ)
      → r + j + n ≤ 256
      → HaveLength (length symbol) (j + n) sources
      → Added n j symbol
  unfolding Added add_sources
  add_sources-Added zero j symbol h l = (symbol, refl, refl, λ p k. refl)
  add_sources-Added (suc n) j symbol h l =
      let (c, element) = cauchy-some i j r low (omega arith) in
      let (next, added, same, at) =
        mul_add_slice-at symbol (get_or sources j []) c (omega (arith, l j (omega arith)))
          (bytes j) in
      let (out, rest, same', at') =
        add_sources-Added n (j + 1) next (omega arith) (λ t k. l t (omega arith) ∙ sym same) in
      (
        out,
        rw (element, add_sources) (rw added rest),
        same' ∙ same,
        (λ p k.
            at' p (omega (arith, same))
            ∙ ap (weighted i r n (j + 1) sources p) (
                at p k
                ∙ ap (λ x. add (get_or symbol p 0) (mul x (get_or (get_or sources j []) p 0)))
                    (sym (coefficient_lem i j r c element)))),
      )

-- The sources as `emit_repairs` pads them.
length-resize : (len : ℕ) (xs : List ℕ) → length (resize len xs) ≡ len
length-resize len xs = omega (
  arith,
  length-append (take len xs) (replicate (len - length xs) 0),
  length-take len xs,
  length-replicate {A = ℕ} (len - length xs) 0,
)

abbrev Small : List ℕ → Type 0
Small xs = (p : ℕ) → get_or xs p 0 < 256

Small-append : (xs ys : List ℕ) → Small xs → Small ys → Small (xs ++ ys)
Small-append [] ys h k p = k p
Small-append (x ∷ xs) ys h k zero = h 0
Small-append (x ∷ xs) ys h k (suc p) = Small-append xs ys (λ q. h (suc q)) k p

Small-take : (n : ℕ) (xs : List ℕ) → Small xs → Small (take n xs)
Small-take zero xs h p = omega arith
Small-take (suc n) [] h p = omega arith
Small-take (suc n) (x ∷ xs) h zero = h 0
Small-take (suc n) (x ∷ xs) h (suc p) = Small-take n xs (λ q. h (suc q)) p

Small-resize : (len : ℕ) (xs : List ℕ) → Small xs → Small (resize len xs)
Small-resize len xs h =
    Small-append (take len xs) (replicate (len - length xs) 0) (Small-take len xs h)
      (λ p. omega (arith, get_or-replicate {A = ℕ} (len - length xs) p 0))

abbrev pub padded : ℕ → List (List ℕ) → List (List ℕ)
padded len sources = map (resize len) sources

padded-HaveLength :
    (len : ℕ) (sources : List (List ℕ)) → HaveLength len (length sources) (padded len sources)
padded-HaveLength len [] t h = absurd (omega arith)
padded-HaveLength len (x ∷ xs) zero h = length-resize len x
padded-HaveLength len (x ∷ xs) (suc t) h = padded-HaveLength len xs t (omega arith)

padded-AllBytes :
    (len : ℕ) (sources : List (List ℕ)) → AllBytes sources → AllBytes (padded len sources)
padded-AllBytes len [] h j p = omega arith
padded-AllBytes len (x ∷ xs) h zero p = Small-resize len x (h 0) p
padded-AllBytes len (x ∷ xs) h (suc j) p = padded-AllBytes len xs (λ t. h (suc t)) j p

-- The repair symbols from the `i`-th on, with their place in the group: each is as long as the
-- longest source, and each of its bytes is the sum of the bytes of the `k` padded sources at that
-- place, weighted with the elements of the matrix.
abbrev pub AreRepairs : FecEncoder → ℕ → ℕ → List FecRepairData → Type 0
AreRepairs e k i [] = Unit
AreRepairs e k i (d ∷ ds) =
    (d.repair_idx ≡ i)
    × (d.group_id ≡ e.group_id)
    × (d.k ≡ k)
    × (d.r ≡ e.r)
    × (d.padded_len ≡ e.padded_len % 65_536)
    × (length d.contents ≡ e.padded_len)
    × ((p : ℕ)
        → p < e.padded_len
        → get_or d.contents p 0 ≡ weighted i e.r k 0 (padded e.padded_len e.sources) p 0)
    × AreRepairs e k (i + 1) ds

module _ (e : FecEncoder) (k : ℕ) (bytes : AllBytes e.sources) (room : e.r + k ≤ 256)
    (enough : k ≤ length e.sources) where
  make_repairs-AreRepairs :
      (n i : ℕ)
      → i + n ≤ e.r
      → (repairs : List FecRepairData) × (make_repairs e k (padded e.padded_len e.sources) n i
          ≡ some repairs)
        × (length repairs ≡ n)
        × AreRepairs e k i repairs
  unfolding make_repairs Added
  make_repairs-AreRepairs zero i h = ([], refl, refl, tt)
  make_repairs-AreRepairs (suc n) i h =
      let size = length-replicate {A = ℕ} e.padded_len 0 in
      let (symbol, made, same, at) =
        add_sources-Added i e.r (padded e.padded_len e.sources) (omega arith)
          (padded-AllBytes e.padded_len e.sources bytes) k 0 (replicate e.padded_len 0)
          (omega arith)
          (λ t l. padded-HaveLength e.padded_len e.sources t (omega arith) ∙ sym size) in
      let (repairs, rest, many, right) = make_repairs-AreRepairs n (i + 1) (omega arith) in
      (
        repair_data e k i symbol ∷ repairs,
        rw (made, make_repairs) (rw rest refl),
        omega (arith, many),
        (
          refl,
          refl,
          refl,
          refl,
          refl,
          same ∙ size,
          (λ p l.
              at p (omega (arith, size))
              ∙ ap (weighted i e.r k 0 (padded e.padded_len e.sources) p)
                  (get_or-replicate {A = ℕ} e.padded_len p 0)),
          right,
        ),
      )

  -- From at most 256 rows and columns together, of which there are no more columns than sources of
  -- bytes, the encoder makes its `r` repair symbols without a panic, each byte the weighted sum of
  -- the padded sources' bytes, and goes on to an empty group under the next number.
  pub emit_repairs-AreRepairs :
      (repairs : List FecRepairData) × (emit_repairs e k
        ≡ some (
          repairs,
          record e {
            group_id = (e.group_id + 1) % 4_294_967_296;
            sources = [];
            padded_len = 0;
            source_idx = 0;
          },
        ))
      × (length repairs ≡ e.r)
      × AreRepairs e k 0 repairs
  unfolding emit_repairs
  emit_repairs-AreRepairs =
      let (repairs, made, many, right) = make_repairs-AreRepairs e.r 0 (omega arith) in
      (repairs, rw (made, emit_repairs) refl, many, right)
