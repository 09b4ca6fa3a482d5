-- ===== src/Fec/Decoder/Recovery.antt =====
-- `try_recover` of src/fec/codec.rs.
use seam.Prelude.{
  ℕ, zero, suc, ◌+◌, ◌≤◌, ◌<◌, List, [], ◌∷◌, ◌≡◌, ◌||◌, if◌then◌else◌, inl, inr, none, some, refl,
  sym, ap, ◌∙◌, arith, Bool-cases, ==_iff, ltb, Option-cases, true, false, ◌==◌, length, take,
  get_or, get_or_beyond, length-take,
}
use seam.Prelude.Map.{lookup}
use seam.Fec.Field.{mul}
use seam.Fec.Field.Powers.{mul_null}
use seam.Fec.Field.Sums.{Bytes, dot}
use seam.Fec.Encoder.Repairs.{coefficient}
use seam.Fec.Encoder.Cauchy.{All, Ascends, row_sum}
use seam.Fec.Encoder.Cauchy.Regular.{row_sum-regular}
use seam.Fec.Decoder.{Rows, entry, GroupState, missing_from, keys, solved, solve, try_recover}
use seam.Fec.Decoder.Equations.{Solved}
use seam.Fec.Decoder.Elimination.{gauss_rhs-solves}
use seam.Fec.Decoder.Missing.{
  All-keys, Ascends-keys, length-keys, Ascends-take, All-take, length-missing_from,
  Ascends-missing_from, All-missing_from, from-All-missing, total-missing,
}
use seam.Fec.Decoder.Building.{RowRight}
use seam.Fec.Decoder.System.{RowsRight, Zeros, Received, BuiltRows, build_rows-Built}

RowsRight-at :
    (k w : ℕ) (sources mat rhs : Rows)
    → RowsRight k w sources mat rhs
    → (i : ℕ) → i < length mat
    → RowRight k w sources (get_or mat i []) (get_or rhs i [])
unfolding RowsRight
RowsRight-at k w sources [] rhs h i l = absurd (omega arith)
RowsRight-at k w sources (row ∷ mat) [] h i l = absurd h
RowsRight-at k w sources (row ∷ mat) (d ∷ rhs) h zero l = h.0
RowsRight-at k w sources (row ∷ mat) (d ∷ rhs) h (suc i) l =
    RowsRight-at k w sources mat rhs h.1 i (omega arith)

to-Zeros :
    (k : ℕ) (v : ℕ → ℕ) (mat : Rows)
    → ((i : ℕ) → i < length mat → dot k (entry mat i) v ≡ 0)
    → Zeros k v mat
unfolding Zeros
to-Zeros k v [] h = tt
to-Zeros k v (row ∷ mat) h = (h 0 (omega arith), to-Zeros k v mat (λ i l. h (suc i) (omega arith)))

All-map : (P Q : ℕ → Type 0) (xs : List ℕ) → ((x : ℕ) → P x → Q x) → All P xs → All Q xs
All-map P Q [] f h = tt
All-map P Q (x ∷ xs) f h = (f x h.0, All-map P Q xs f h.1)

get_or-ext :
    (xs ys : List ℕ)
    → length xs ≡ length ys
    → ((p : ℕ) → p < length xs → get_or xs p 0 ≡ get_or ys p 0)
    → xs ≡ ys
get_or-ext [] [] h k = refl
get_or-ext [] (y ∷ ys) h k = absurd (omega (arith, h))
get_or-ext (x ∷ xs) [] h k = absurd (omega (arith, h))
get_or-ext (x ∷ xs) (y ∷ ys) h k = λ i.
    k 0 (omega arith) i ∷ get_or-ext xs ys (omega (arith, h)) (λ p l. k (suc p) (omega arith)) i

all_bytes :
    (rows : Rows)
    → ((i : ℕ) → i < length rows → (p : ℕ) → entry rows i p < 256)
    → (i p : ℕ) → entry rows i p < 256
all_bytes rows h i p = elim (Bool-cases (ltb i (length rows))) [
  | inl within ↦ h i (ground arith) p
  | inr beyond ↦ omega (arith, ap (λ row. get_or row p 0) (get_or_beyond rows i [] (ground arith)))
]

solved_congr :
    (k : ℕ) (a b : Rows) (xs : List ℕ)
    → All (λ x. x < k) xs
    → ((i : ℕ) → i < k → get_or a i [] ≡ get_or b i [])
    → solved a xs ≡ solved b xs
solved_congr k a b [] h e = refl
solved_congr k a b (x ∷ xs) h e = λ i. (x, e x h.0 i) ∷ solved_congr k a b xs h.1 e i

none_left : (xs : List ℕ) → length xs ≡ 0 → xs ≡ []
none_left [] h = refl
none_left (x ∷ xs) h = absurd (omega (arith, h))

module _ (w : ℕ) (sources : Rows) (g : GroupState) (ok : Received w sources g) where
  missing : List ℕ
  missing = missing_from g.sources g.k 0

  answer : ℕ → ℕ → ℕ
  answer j p = entry sources j p

  -- A column that the rows take to 0 is 0: at the sources at hand by their rows, at the missing
  -- ones by those of the repairs.
  only_zero :
      (v : ℕ → ℕ) (bytes : Bytes v) (mat rhs : Rows) (avail : List ℕ)
      → BuiltRows w sources g ok g.k 0 avail mat rhs
      → Ascends 0 avail
      → All (λ x. x < g.r) avail
      → length avail ≡ length missing
      → Zeros g.k v mat
      → (j : ℕ) → j < g.k
      → v j ≡ 0
  unfolding missing
  only_zero v bytes mat rhs avail b up low many z j h =
      let known = b.known v bytes z in
      let over = λ (x : ℕ).
        total-missing g.k 0 g.sources (λ t. mul (coefficient x t g.r) (v t))
          (λ t d l m e.
            ap (mul (coefficient x t g.r)) (known t d l m e) ∙ mul_null (coefficient x t g.r)) in
      let sums =
        All-map (λ x. dot g.k (λ t. coefficient x t g.r) v ≡ 0) (λ x. row_sum g.r v missing x ≡ 0)
          avail (λ x e. sym (over x) ∙ e) (b.summed v z) in
      let zeros =
        row_sum-regular g.r g.k (omega (arith, ok.room)) v avail missing 0 0 many up
          (Ascends-missing_from g.k 0 g.sources) low
          (All-missing_from (λ t. t < g.k) g.k 0 g.sources (λ t l m e. omega arith))
          (All-missing_from (λ t. v t < 256) g.k 0 g.sources (λ t l m e. bytes t)) sums in
      elim (Option-cases (lookup j g.sources)) [
        | inl none_ ↦
            from-All-missing (λ t. v t ≡ 0) g.k 0 g.sources zeros j (omega arith) (omega arith)
              none_
        | inr (d, some_) ↦ known j d (omega arith) (omega arith) some_
      ]

  built-Solved :
      (mat rhs : Rows) (avail : List ℕ)
      → BuiltRows w sources g ok g.k 0 avail mat rhs
      → Ascends 0 avail
      → All (λ x. x < g.r) avail
      → length avail ≡ length missing
      → Solved g.k w answer mat rhs
  unfolding missing answer
  built-Solved mat rhs avail b up low many =
      let at = λ (i : ℕ) (l : i < g.k).
        RowsRight-at g.k w sources mat rhs b.right i (omega (arith, b.many.0)) in
      record {
        left = record {
          size = b.many.0;
          wide = λ t l. (at t l).long;
          bytes = all_bytes mat (λ i l. (at i (omega (arith, b.many.0))).row_bytes);
        };
        right = record {
          size = b.many.1;
          wide = λ t l. (at t l).size;
          bytes = all_bytes rhs (λ i l. (at i (omega (arith, b.many.1))).bytes);
        };
        solves = λ i p l. (at i l).solves p;
        regular = λ v bytes zeros.
            only_zero v bytes mat rhs avail b up low many
              (to-Zeros g.k v mat (λ i l. zeros i (omega (arith, b.many.0))));
      }

  -- The number of sources at hand and that of the missing ones.
  counted : length g.sources + length missing ≡ g.k
  unfolding missing
  counted =
      length-missing_from g.k g.k 0 g.sources (omega arith) ok.sources_up
        (All-keys (λ t. t < g.k) 0 g.sources ok.sources_up (λ t v e. (ok.each_source t v e).0))

  solve_lem :
      length missing ≤ length g.repairs
      → solve g missing ≡ some (some (solved sources missing), record g { recovered = true })
  unfolding missing answer solve
  solve_lem enough =
      let avail = take (length missing) (keys g.repairs) in
      let many : length avail ≡ length missing =
        omega (arith, length-take (length missing) (keys g.repairs), length-keys g.repairs) in
      let (mat, rhs, b) = build_rows-Built w sources g ok g.k 0 avail (omega arith) many (
        All-take (λ x. (d : List ℕ) × (lookup x g.repairs ≡ some d)) (length missing)
          (keys g.repairs)
          (All-keys (λ x. (d : List ℕ) × (lookup x g.repairs ≡ some d)) 0 g.repairs ok.repairs_up
            (λ t v e. (v, e)))) in
      let (mat', rhs', run, shape, right) = gauss_rhs-solves g.k w answer ok.shape.bytes mat rhs (
        built-Solved mat rhs avail b
          (Ascends-take 0 (length missing) (keys g.repairs)
            (Ascends-keys 0 g.repairs ok.repairs_up))
          (All-take (λ x. x < g.r) (length missing) (keys g.repairs)
            (All-keys (λ x. x < g.r) 0 g.repairs ok.repairs_up
              (λ t v e. (ok.each_repair t v e).below)))
          many) in
      let same =
        solved_congr g.k rhs' sources missing
          (All-missing_from (λ t. t < g.k) g.k 0 g.sources (λ t l m e. omega arith))
          (λ i l.
            get_or-ext (get_or rhs' i []) (get_or sources i [])
              (shape.wide i l ∙ sym (ok.shape.wide i l))
              (λ p m. right i p l (omega (arith, shape.wide i l)))) in
      rw (b.made, solve) (rw run (ap (λ x. some (some x, record g { recovered = true })) same))

  -- From `k` packets on, the group is solved.
  try_recover-recovers :
      g.recovered ≡ false
      → g.k ≤ length g.sources + length g.repairs
      → try_recover g
        ≡ some (some (solved sources (missing_from g.sources g.k 0)), record g { recovered = true })
  unfolding try_recover missing
  try_recover-recovers fresh enough =
      let few = length-missing_from g.r g.r 0 g.repairs (omega arith) ok.repairs_up (
        All-keys (λ t. t < g.r) 0 g.repairs ok.repairs_up
          (λ t v e. (ok.each_repair t v e).below)) in
      elim (Bool-cases (length g.sources == g.k)) [
        | inl all_ ↦ ground (
          arith,
          ok.room,
          ap (solved sources)
              (none_left missing (omega (arith, counted, (==_iff (length g.sources) g.k).0 all_))),
        )
        | inr some_ ↦ ground (arith, ok.room, counted, solve_lem (omega (arith, counted)))
      ]

  try_recover-over : g.recovered ≡ true → try_recover g ≡ some (none, g)
  unfolding try_recover
  try_recover-over over = ground arith

  try_recover-waits :
      g.recovered ≡ false
      → length g.sources + length g.repairs < g.k
      → try_recover g ≡ some (none, g)
  unfolding try_recover
  try_recover-waits fresh few = ground (arith, ok.room)

  -- In a group of `k` sources of `w` bytes each, where `r + k` is at most 255 and what has arrived
  -- is right, an attempt at recovery never panics and is never rejected. Once it has succeeded, or
  -- while fewer than `k` packets are at hand, sources and repairs together, it does nothing; from
  -- any `k` packets on it gives exactly the missing sources, each as it was before it was encoded.
  pub try_recover-decides : try_recover g ≡ (
      if g.recovered || ltb (length g.sources + length g.repairs) g.k
      then some (none, g)
      else some
          (some (solved sources (missing_from g.sources g.k 0)), record g { recovered = true }))
  try_recover-decides = elim (Bool-cases g.recovered) [
    | inl over ↦ ground (arith, try_recover-over over)
    | inr fresh ↦ elim (Bool-cases (ltb (length g.sources + length g.repairs) g.k)) [
      | inl few ↦ ground (arith, try_recover-waits fresh (ground arith))
      | inr enough ↦ ground (arith, try_recover-recovers fresh (ground arith))
    ]
  ]
