-- ===== src/Fec/Decoder/System.antt =====
-- The system of equations that `try_recover` of src/fec/codec.rs solves has one solution.
use seam.Prelude.{
  ℕ, zero, suc, ◌+◌, ◌≤◌, ◌<◌, List, [], ◌∷◌, ◌≡◌, inl, inr, none, some, refl, sym, ap, ◌∙◌, arith,
  Bool-cases, ◌==◌, Option-cases, length, get_or, set, replicate,
}
use seam.Prelude.Map.{lookup, Above}
use mathlib.Core.Path.{subst}
use seam.Fec.Field.Sums.{Bytes, dot, dot_congr}
use seam.Fec.Encoder.Repairs.{coefficient}
use seam.Fec.Encoder.Cauchy.{All}
use seam.Fec.Decoder.{Rows, GroupState, Built, cauchy_row, build_rows, missing_from}
use seam.Fec.Decoder.Rows.{Shape}
use seam.Fec.Decoder.Missing.{missing_from-some, missing_from-none}
use seam.Fec.Decoder.Building.{
  IsRepair, RowRight, dot-unit, unit-RowRight, cauchy_row-some, cauchy-RowRight,
}

unfoldable pub RowsRight : ℕ → ℕ → Rows → Rows → Rows → Type 0
RowsRight k w sources [] [] = Unit
RowsRight k w sources [] (d ∷ rhs) = ⊥
RowsRight k w sources (row ∷ mat) [] = ⊥
RowsRight k w sources (row ∷ mat) (d ∷ rhs) =
    RowRight k w sources row d × RowsRight k w sources mat rhs

-- Every row takes the column `v` to 0.
unfoldable pub Zeros : ℕ → (ℕ → ℕ) → Rows → Type 0
Zeros k v [] = Unit
Zeros k v (row ∷ mat) = (dot k (λ t. get_or row t 0) v ≡ 0) × Zeros k v mat

-- What a group has received is right.
pub record Received (w : ℕ) (sources : Rows) (g : GroupState) : Type 0 where
  pub shape : Shape g.k w sources
  pub room : g.r + g.k ≤ 255
  pub sources_up : Above 0 g.sources
  pub repairs_up : Above 0 g.repairs
  pub each_source :
      (i : ℕ) (d : List ℕ) → lookup i g.sources ≡ some d → (i < g.k) × (d ≡ get_or sources i [])
  pub each_repair :
      (i : ℕ) (d : List ℕ) → lookup i g.repairs ≡ some d → IsRepair g.k g.r w sources i d

module _ (w : ℕ) (sources : Rows) (g : GroupState) (ok : Received w sources g) where
  -- The rows for the columns from `col` on, which say of a column that it is 0 at the sources at
  -- hand, and that the rows of the repairs take it to 0.
  pub record BuiltRows (n col : ℕ) (avail : List ℕ) (mat rhs : Rows) : Type 0 where
    pub made : build_rows g n col avail ≡ Built.rows mat rhs
    pub many : (length mat ≡ n) × (length rhs ≡ n)
    pub right : RowsRight g.k w sources mat rhs
    pub known :
        (v : ℕ → ℕ)
        → Bytes v
        → Zeros g.k v mat
        → ((t : ℕ) (d : List ℕ) → col ≤ t → t < col + n → lookup t g.sources ≡ some d → v t ≡ 0)
    pub summed :
        (v : ℕ → ℕ) → Zeros g.k v mat → All (λ x. dot g.k (λ t. coefficient x t g.r) v ≡ 0) avail

  with_source :
      (n col : ℕ) (avail : List ℕ) (mat rhs : Rows) (d : List ℕ)
      → lookup col g.sources ≡ some d
      → BuiltRows n (col + 1) avail mat rhs
      → BuiltRows (suc n) col avail (set (replicate g.k 0) col 1 ∷ mat) (d ∷ rhs)
  unfolding build_rows RowsRight Zeros
  with_source n col avail mat rhs d found b =
      let (below, same) = ok.each_source col d found in
      record {
        made = rw (found, build_rows) (rw b.made refl);
        many = (ap suc b.many.0, ap suc b.many.1);
        right = (
          subst (RowRight g.k w sources (set (replicate g.k 0) col 1)) (sym same)
              (unit-RowRight g.k w sources col ok.shape below),
          b.right,
        );
        known = λ v bytes z t d' h l e. elim (Bool-cases (t == col)) [
          | inl here ↦ ap v {y = col} (ground arith) ∙ sym (dot-unit g.k col v bytes below) ∙ z.0
          | inr later ↦ b.known v bytes z.1 t d' (ground arith) (omega arith) e
        ];
        summed = λ v z. b.summed v z.1;
      }

  with_repair :
      (n col x : ℕ) (avail : List ℕ) (mat rhs : Rows) (row d : List ℕ)
      → lookup col g.sources ≡ none
      → lookup x g.repairs ≡ some d
      → cauchy_row x g.r g.k 0 ≡ some row
      → length row ≡ g.k
      → ((t : ℕ) → t < g.k → get_or row t 0 ≡ coefficient x t g.r)
      → BuiltRows n (col + 1) avail mat rhs
      → BuiltRows (suc n) col (x ∷ avail) (row ∷ mat) (d ∷ rhs)
  unfolding build_rows RowsRight Zeros
  with_repair n col x avail mat rhs row d none_ found element long at b = record {
    made = rw (none_, build_rows) (rw element (rw found (rw b.made refl)));
    many = (ap suc b.many.0, ap suc b.many.1);
    right = (
      cauchy-RowRight g.k g.r w sources x row d (omega (arith, ok.room)) ok.shape
          (ok.each_repair x d found) long at,
      b.right,
    );
    known = λ v bytes z t d' h l e. elim (Bool-cases (t == col)) [
      | inl here ↦
          absurd (ground (arith, ap (λ u. lookup u g.sources) {x = t} {y = col} (ground arith)))
      | inr later ↦ b.known v bytes z.1 t d' (ground arith) (omega arith) e
    ];
    summed = λ v z. (
      sym (dot_congr g.k (λ t. get_or row t 0) (λ t. coefficient x t g.r) v at) ∙ z.0,
      b.summed v z.1,
    );
  }

  abbrev pub AtHand : List ℕ → Type 0
  AtHand = All (λ x. (d : List ℕ) × (lookup x g.repairs ≡ some d))

  abbrev pub Builds : ℕ → ℕ → List ℕ → Type 0
  Builds n col avail =
      length avail ≡ length (missing_from g.sources n col)
      → AtHand avail
      → (mat : Rows) × (rhs : Rows) × BuiltRows n col avail mat rhs

  with_next_repair :
      (n col : ℕ) (avail : List ℕ)
      → ((rest : List ℕ) → Builds n (col + 1) rest)
      → lookup col g.sources ≡ none
      → length avail ≡ suc (length (missing_from g.sources n (col + 1)))
      → AtHand avail
      → (mat : Rows) × (rhs : Rows) × BuiltRows (suc n) col avail mat rhs
  with_next_repair n col [] next none_ many found = absurd (omega arith)
  with_next_repair n col (x ∷ rest) next none_ many found =
      let (d, at_hand) = found.0 in
      let (row, element, long, at) =
        cauchy_row-some x g.r g.k 0 (ok.each_repair x d at_hand).below (omega (arith, ok.room)) in
      let (mat, rhs, b) = next rest (omega arith) found.1 in
      (
        row ∷ mat,
        d ∷ rhs,
        with_repair n col x rest mat rhs row d none_ at_hand element long
            (λ t l. at t l ∙ ap (λ u. coefficient x u g.r) (omega arith)) b,
      )

  pub build_rows-Built : (n col : ℕ) (avail : List ℕ) → col + n ≡ g.k → Builds n col avail
  unfolding build_rows RowsRight Zeros missing_from
  build_rows-Built zero col [] top many found = (
    [],
    [],
    record {
      made = refl;
      many = (refl, refl);
      right = tt;
      known = λ v b z t d h l. absurd (omega arith);
      summed = λ v z. tt;
    },
  )
  build_rows-Built zero col (x ∷ avail) top many found = absurd (omega arith)
  build_rows-Built (suc n) col avail top many found = elim (Option-cases (lookup col g.sources)) [
    | inl none_ ↦
        with_next_repair n col avail (λ rest. build_rows-Built n (col + 1) rest (omega arith)) none_
          (many ∙ ap length (missing_from-none n col g.sources none_)) found
    | inr (d, some_) ↦
        let (mat, rhs, b) =
          build_rows-Built n (col + 1) avail (omega arith)
            (many ∙ ap length (missing_from-some n col g.sources d some_)) found in
        (set (replicate g.k 0) col 1 ∷ mat, d ∷ rhs, with_source n col avail mat rhs d some_ b)
  ]
