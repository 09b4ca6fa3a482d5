-- ===== src/Fec/Decoder.antt =====
-- src/fec/codec.rs: the decoder, which solves for the missing sources of a group. A result of
-- `none` is a panic of the code.
pub mod Padding
pub mod Rows
pub mod Clearing
pub mod Equations
pub mod Pivots
pub mod Elimination
pub mod Missing
pub mod Building
pub mod System
pub mod Recovery
pub mod Groups
pub mod Taking
pub mod Deliveries
pub mod AnyPackets
pub mod EndToEnd
mod RecoveryTests
mod Tests
use seam.Prelude.{
  ℕ, zero, suc, ◌+◌, ◌-◌, ◌%◌, max, List, [], ◌∷◌, ◌++◌, Option, none, some, Bool, true, false,
  ◌==◌, ltb, if◌then◌else◌, length, take, get_or, set, replicate, map,
}
use seam.Prelude.Bits.{bit_xor}
use seam.Prelude.Bytes.{u8_mod}
use seam.Prelude.Map.{Map, lookup, insert, remove}
use seam.Fec.Field.{mul, inv, mul_add_slice}
use seam.Fec.Wire.{FecRepairData}
use seam.Fec.Encoder.{cauchy, resize}

abbrev pub Rows : Type 0
Rows = List (List ℕ)

abbrev pub entry : Rows → ℕ → ℕ → ℕ
entry rows r c = get_or (get_or rows r []) c 0

-- `(col..k).find(|&r| mat[r][col] != 0)`, with the rows left and the row at hand.
pub find_pivot : Rows → ℕ → ℕ → ℕ → Option ℕ
find_pivot mat col zero r = none
find_pivot mat col (suc n) r =
    let next = find_pivot mat col n (r + 1) in if entry mat r col == 0 then next else some r

abbrev pub swap : ℕ → ℕ → Rows → Rows
swap i j rows = set (set rows i (get_or rows j [])) j (get_or rows i [])

abbrev pub scale : ℕ → List ℕ → List ℕ
scale c row = map (λ v. mul v c) row

-- `for (dst, &src) in dst.iter_mut().zip(src) { *dst ^= mul(factor, src) }`
pub add_row : ℕ → List ℕ → List ℕ → List ℕ
add_row factor [] src = []
add_row factor (d ∷ dst) [] = d ∷ dst
add_row factor (d ∷ dst) (s ∷ src) = bit_xor d (mul factor s) ∷ add_row factor dst src

abbrev pub and_then {ℓ κ} : {A : Type ℓ} {B : Type κ} → Option A → (A → Option B) → Option B
and_then none f = none
and_then (some a) f = f a

-- The loop over the other rows, with the rows left and the row at hand.
pub eliminate : ℕ → ℕ → ℕ → Rows → Rows → Option (Rows × Rows)
eliminate col zero r mat rhs = some (mat, rhs)
eliminate col (suc n) r mat rhs =
    let next : Rows → Rows → Option (Rows × Rows) = eliminate col n (r + 1) in
    let factor = entry mat r col in
    if r == col
    then next mat rhs
    else if factor == 0
    then next mat rhs
    else and_then (mul_add_slice (get_or rhs r []) (get_or rhs col []) factor) (λ row.
      next (set mat r (add_row factor (get_or mat r []) (get_or mat col []))) (set rhs r row))

abbrev pub scale_row : ℕ → ℕ → Rows → Rows
scale_row col c rows = set rows col (scale c (get_or rows col []))

-- The loop over the columns, with the columns left and the column at hand. An inner `none` is the
-- result `false`.
pub gauss_loop : ℕ → ℕ → ℕ → Rows → Rows → Option (Option (Rows × Rows))
gauss_loop k zero col mat rhs = some (some (mat, rhs))
gauss_loop k (suc n) col mat rhs =
    let next : Rows → Rows → Option (Option (Rows × Rows)) = gauss_loop k n (col + 1) in
    elim (find_pivot mat col (k - col) col) [
      | none ↦ some none
      | some pivot ↦
          let mat1 = swap col pivot mat in
          let rhs1 = swap col pivot rhs in
          and_then (inv (entry mat1 col col)) (λ piv_inv.
            and_then (eliminate col k 0 (scale_row col piv_inv mat1) (scale_row col piv_inv rhs1))
              (λ (mat2, rhs2). next mat2 rhs2))
    ]

pub gauss_rhs : Rows → Rows → ℕ → Option (Option (Rows × Rows))
gauss_rhs mat rhs k = gauss_loop k k 0 mat rhs

pub record GroupState : Type 0 where
  pub k : ℕ
  pub r : ℕ
  pub padded_len : ℕ
  pub sources : Map (List ℕ)
  pub repairs : Map (List ℕ)
  pub recovered : Bool

pub new_group : ℕ → ℕ → ℕ → GroupState
new_group k r padded_len = record {
  k = k;
  r = r;
  padded_len = padded_len;
  sources = [];
  repairs = [];
  recovered = false;
}

abbrev pub keys : Map (List ℕ) → List ℕ
keys [] = []
keys ((key, v) ∷ m) = key ∷ keys m

-- `(0..k).filter(|i| !sources.contains_key(i))`, with the indices left and the index at hand.
pub missing_from : Map (List ℕ) → ℕ → ℕ → List ℕ
missing_from sources zero i = []
missing_from sources (suc n) i =
    let rest = missing_from sources n (i + 1) in
    elim (lookup i sources) [ none ↦ i ∷ rest | some s ↦ rest ]

-- `for j in 0..self.k { row.push(cauchy(ri, j, r)?) }`
pub cauchy_row : ℕ → ℕ → ℕ → ℕ → Option (List ℕ)
cauchy_row ri r zero j = some []
cauchy_row ri r (suc n) j =
    let rest = cauchy_row ri r n (j + 1) in
    and_then (cauchy ri j r) (λ c. and_then rest (λ row. some (c ∷ row)))

-- What `build_rows` makes: the rows, a rejection of the input by `?`, or the panic of `expect`.
pub data Built : Type 0 where
  rows : Rows → Rows → Built
  rejected panics : Built

abbrev pub and_row : List ℕ → List ℕ → Built → Built
and_row row data' (rows mat rhs) = rows (row ∷ mat) (data' ∷ rhs)
and_row row data' rejected = rejected
and_row row data' panics = panics

-- The loop over the columns, with the columns left, the column at hand, and the repairs to use.
pub build_rows : GroupState → ℕ → ℕ → List ℕ → Built
build_rows g zero col avail = rows [] []
build_rows g (suc n) col avail =
    let next : List ℕ → Built = build_rows g n (col + 1) in
    elim (lookup col g.sources) [
      | some src_data ↦ and_row (set (replicate g.k 0) col 1) src_data (next avail)
      | none ↦ elim avail [
        | [] ↦ panics
        | ri ∷ left ↦ elim (cauchy_row ri g.r g.k 0) [
          | none ↦ rejected
          | some row ↦ elim (lookup ri g.repairs) [
            | none ↦ panics
            | some repair ↦ and_row row repair (next left)
          ]
        ]
      ]
    ]

-- The missing sources, from the right-hand sides.
abbrev pub solved : Rows → List ℕ → List (ℕ × List ℕ)
solved rhs [] = []
solved rhs (mi ∷ missing) = (mi, get_or rhs mi []) ∷ solved rhs missing

abbrev pub Recovered : Type 0
Recovered = Option (List (ℕ × List ℕ)) × GroupState

pub solve : GroupState → List ℕ → Option Recovered
solve g missing = elim (build_rows g g.k 0 (take (length missing) (keys g.repairs))) [
  | panics ↦ none
  | rejected ↦ some (none, g)
  | rows mat rhs ↦ elim (gauss_rhs mat rhs g.k) [
    | none ↦ none
    | some none ↦ some (none, g)
    | some (some (mat', rhs')) ↦ some (some (solved rhs' missing), record g { recovered = true })
  ]
]

pub try_recover : GroupState → Option Recovered
try_recover g =
    let have_src = length g.sources % u8_mod in
    let have_rep = length g.repairs % u8_mod in
    let missing = missing_from g.sources g.k 0 in
    if g.recovered
    then some (none, g)
    else if have_src == g.k
    then some (some [], record g { recovered = true })
    else if ltb ((have_src + have_rep) % u8_mod) g.k
    then some (none, g)
    else if ltb have_rep (length missing % u8_mod)
    then some (none, g)
    else solve g missing

pub record FecDecoder : Type 0 where
  pub groups : Map GroupState

pub new : FecDecoder
new = record { groups = [] }

-- `entry(group_id).or_insert_with(..)`
abbrev pub group_or_new : FecDecoder → ℕ → GroupState → GroupState
group_or_new d group_id fresh = elim (lookup group_id d.groups) [ none ↦ fresh | some g ↦ g ]

abbrev pub stored :
    FecDecoder → ℕ → Option Recovered → Option (Option (List (ℕ × List ℕ)) × FecDecoder)
stored d group_id none = none
stored d group_id (some (recovered, g)) =
    some (recovered, record d { groups = insert group_id g d.groups })

pub add_source :
    FecDecoder
    → (group_id source_idx k r : ℕ) → List ℕ
    → Option (Option (List (ℕ × List ℕ)) × FecDecoder)
add_source d group_id source_idx k r data' =
    let g = group_or_new d group_id (new_group k r (length data')) in
    let padded_len = max g.padded_len (length data') in
    stored d group_id (
      try_recover (record g {
        padded_len = padded_len;
        sources = insert source_idx (resize padded_len data') g.sources;
      }))

pub add_repair : FecDecoder → FecRepairData → Option (Option (List (ℕ × List ℕ)) × FecDecoder)
add_repair d repair =
    let g = group_or_new d repair.group_id (new_group repair.k repair.r repair.padded_len) in
    let padded_len = max g.padded_len repair.padded_len in
    stored d repair.group_id (
      try_recover (record g {
        padded_len = padded_len;
        repairs = insert repair.repair_idx (resize padded_len repair.contents) g.repairs;
      }))

pub cleanup_group : FecDecoder → ℕ → FecDecoder
cleanup_group d group_id = record d { groups = remove group_id d.groups }
