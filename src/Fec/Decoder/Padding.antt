-- ===== src/Fec/Decoder/Padding.antt =====
-- What src/fec/codec.rs does with sources of different lengths, of which the shorter comes first.
use seam.Prelude.{
  ℕ, ◌-◌, ◌<◌, max, List, [], ◌∷◌, Option, none, some, true, false, ◌≡◌, refl, ap, ◌∙◌, arith, ltb,
  ◌==◌, length, take, map, replicate, length-append, length-take, length-replicate, length-map,
}
use seam.Prelude.Map.{lookup, insert}
use seam.Fec.Field.{mul, inv, mul_add_slice, exp_at, log_at, build_tables, build_loop}
use seam.Fec.Wire.{FecRepairData}
use seam.Fec.Encoder
use seam.Fec.Encoder.{FecEncoder, cauchy, resize, push_source, emit_repairs}
use seam.Fec.Encoder.Repairs.{AllBytes, AreRepairs, emit_repairs-AreRepairs}
use seam.Fec.Decoder.{
  FecDecoder, GroupState, new, new_group, add_source, add_repair, try_recover, solve, build_rows,
  cauchy_row, missing_from, gauss_rhs, gauss_loop, find_pivot, eliminate, and_then, stored,
}

-- The group of two sources and one repair symbol of which the first source and the symbol are there.
abbrev both : ℕ → List ℕ → List ℕ → GroupState
both padded_len source repair = record {
  k = 2;
  r = 1;
  padded_len = padded_len;
  sources = (0, source) ∷ [];
  repairs = (0, repair) ∷ [];
  recovered = false;
}

mul_add_slice-none : (dst src : List ℕ) → length src < length dst → mul_add_slice dst src 1 ≡ none
unfolding mul_add_slice
mul_add_slice-none dst src h = rw (longer (length src) (length dst) h) refl
  where
    longer : (a b : ℕ) → a < b → ltb a b ≡ true
    longer a b h = ground arith

and_then-none {ℓ κ} :
    {A : Type ℓ} {B : Type κ} (o : Option A) (f : A → Option B) → o ≡ none → and_then o f ≡ none
and_then-none o f h = ap (λ x. and_then x f) h

-- The source in the first row is added to the symbol in the second.
eliminate-none :
    (c : ℕ) (source repair : List ℕ)
    → length source < length repair
    → eliminate 0 2 0 ((1 ∷ 0 ∷ []) ∷ (1 ∷ c ∷ []) ∷ []) (source ∷ repair ∷ []) ≡ none
unfolding eliminate
eliminate-none c source repair h =
    and_then-none (mul_add_slice repair source 1) _ (mul_add_slice-none repair source h)

gauss_rhs-none :
    (c : ℕ) (source repair : List ℕ)
    → length source < length repair
    → gauss_rhs ((1 ∷ 0 ∷ []) ∷ (1 ∷ c ∷ []) ∷ []) (source ∷ repair ∷ []) 2 ≡ none
unfolding gauss_rhs gauss_loop find_pivot inv mul exp_at log_at build_tables build_loop
gauss_rhs-none c source repair h =
    and_then-none
      (eliminate 0 2 0 ((1 ∷ 0 ∷ []) ∷ (1 ∷ c ∷ []) ∷ []) (map (λ v. mul v 1) source ∷ repair ∷ []))
      _
      (eliminate-none c (map (λ v. mul v 1) source) repair
        (omega (arith, length-map (λ v. mul v 1) source)))

solve-none :
    (padded_len : ℕ) (source repair : List ℕ)
    → length source < length repair
    → solve (both padded_len source repair) (1 ∷ []) ≡ none
unfolding solve build_rows cauchy_row cauchy inv exp_at log_at build_tables build_loop
solve-none padded_len source repair h = rw (gauss_rhs-none 142 source repair h, solve) refl

try_recover-none :
    (padded_len : ℕ) (source repair : List ℕ)
    → length source < length repair
    → try_recover (both padded_len source repair) ≡ none
unfolding try_recover missing_from
try_recover-none padded_len source repair h = solve-none padded_len source repair h

-- The group once its first source has come.
abbrev begun : List ℕ → GroupState
begun source = record {
  k = 2;
  r = 1;
  padded_len = max (length source) (length source);
  sources = (0, resize (max (length source) (length source)) source) ∷ [];
  repairs = [];
  recovered = false;
}

-- The decoder to which a first source has come.
abbrev waiting : ℕ → List ℕ → FecDecoder
waiting g source = record { groups = (g, begun source) ∷ [] }

add_source-waiting :
    (g : ℕ) (source : List ℕ) → add_source new g 0 2 1 source ≡ some (none, waiting g source)
unfolding new new_group add_source try_recover
add_source-waiting g source = refl

length-resize : (len : ℕ) (xs : List ℕ) → length (resize len xs) ≡ len
length-resize len xs = omega (
  arith,
  length-append (take len xs) (replicate (len - length xs) 0),
  length-take len xs,
  length-replicate {A = ℕ} (len - length xs) 0,
)

found : (g : ℕ) (source : List ℕ) → lookup g (waiting g source).groups ≡ some (begun source)
found g source = rw (same g) refl
  where
    same : (n : ℕ) → (n == n) ≡ true
    same n = ground arith

add_repair-stored :
    (d : FecDecoder) (repair : FecRepairData) (known : GroupState)
    → lookup repair.group_id d.groups ≡ some known
    → add_repair d repair
      ≡ stored d repair.group_id (
          try_recover (record known {
            padded_len = max known.padded_len repair.padded_len;
            repairs =
                insert repair.repair_idx
                  (resize (max known.padded_len repair.padded_len) repair.contents)
                  known.repairs;
          }))
unfolding add_repair
add_repair-stored d repair known h =
    ap
      (λ o. stored d repair.group_id (
        try_recover (
          let g : GroupState = elim o [
            | none ↦ new_group repair.k repair.r repair.padded_len
            | some there ↦ there
          ] in
          record g {
            padded_len = max g.padded_len repair.padded_len;
            repairs =
                insert repair.repair_idx
                  (resize (max g.padded_len repair.padded_len) repair.contents) g.repairs;
          })))
      h

add_repair-none :
    (g padded_len : ℕ) (source symbol : List ℕ)
    → length source < padded_len
    → add_repair (waiting g source) (record {
      group_id = g;
      repair_idx = 0;
      k = 2;
      r = 1;
      padded_len = padded_len;
      contents = symbol;
    })
      ≡ none
add_repair-none g padded_len source symbol h =
    add_repair-stored (waiting g source) _ (begun source) (found g source)
    ∙ ap (stored (waiting g source) g) (
        try_recover-none _ _ _ (
          omega (
            arith,
            length-resize (max (length source) (length source)) source,
            length-resize (max (max (length source) (length source)) padded_len) symbol,
          )))

-- The encoder with the two sources.
abbrev filled : ℕ → List ℕ → List ℕ → FecEncoder
filled g short long = record {
  group_id = g;
  k = 2;
  r = 1;
  sources = short ∷ long ∷ [];
  padded_len = max (max 0 (length short)) (length long);
  source_idx = 2;
}

push_source-filled :
    (g : ℕ) (short long : List ℕ) (repairs : List FecRepairData) (e : FecEncoder)
    → emit_repairs (filled g short long) 2 ≡ some (repairs, e)
    → (half : FecEncoder) × (push_source (Encoder.new g 2 1) short ≡ some (none, half))
      × (push_source half long ≡ some (some repairs, e))
unfolding push_source Encoder.new
push_source-filled g short long repairs e h = (_, refl, rw h refl)

-- The sources of a group of two with one repair symbol, of bytes and shorter than 65536, where the
-- first is shorter than the second: the encoder takes the first, and makes one symbol of both. A
-- decoder to which the first source has come, and the second has not, panics on that symbol.
pub add_repair-panics :
    (g : ℕ) (short long : List ℕ)
    → AllBytes (short ∷ long ∷ [])
    → length short < length long
    → length long < 65_536
    → (half : FecEncoder) × (done : FecEncoder) × (d : FecRepairData) × (w : FecDecoder)
      × (push_source (Encoder.new g 2 1) short ≡ some (none, half))
      × (push_source half long ≡ some (some (d ∷ []), done))
      × (add_source new g 0 2 1 short ≡ some (none, w))
      × (add_repair w d ≡ none)
add_repair-panics g short long bytes less few =
    let (repairs, made, one, right) =
      emit_repairs-AreRepairs (filled g short long) 2 bytes (omega arith) (omega arith) in
    by_repairs repairs _ made one right
  where
    panics :
        (d : FecRepairData)
        → AreRepairs (filled g short long) 2 0 (d ∷ [])
        → add_repair (waiting g short) d ≡ none
    panics d (i, id, k, r, len, size, at, rest) =
        (λ t. add_repair (waiting g short) (record {
          group_id = id t;
          repair_idx = i t;
          k = k t;
          r = r t;
          padded_len = len t;
          contents = d.contents;
        }))
        ∙ add_repair-none g _ short d.contents (omega arith)

    by_repairs :
        (repairs : List FecRepairData) (e : FecEncoder)
        → emit_repairs (filled g short long) 2 ≡ some (repairs, e)
        → length repairs ≡ 1
        → AreRepairs (filled g short long) 2 0 repairs
        → (half : FecEncoder) × (done : FecEncoder) × (d : FecRepairData) × (w : FecDecoder)
          × (push_source (Encoder.new g 2 1) short ≡ some (none, half))
          × (push_source half long ≡ some (some (d ∷ []), done))
          × (add_source new g 0 2 1 short ≡ some (none, w))
          × (add_repair w d ≡ none)
    by_repairs [] e made one right = absurd (omega arith)
    by_repairs (d ∷ d' ∷ ds) e made one right = absurd (omega arith)
    by_repairs (d ∷ []) e made one right =
        let (half, first, second) = push_source-filled g short long (d ∷ []) e made in
        (half, e, d, waiting g short, first, second, add_source-waiting g short, panics d right)
