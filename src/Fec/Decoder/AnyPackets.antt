-- ===== src/Fec/Decoder/AnyPackets.antt =====
-- Any `k` packets of a group restore its sources: the decoder of src/fec/codec.rs through a run.
use seam.Prelude.{
  ℕ, zero, suc, ◌+◌, ◌≤◌, ◌<◌, List, [], Bool, ◌≡◌, ◌⊎◌, inl, inr, some, refl, sym, ap, ◌∙◌, arith,
  Option-cases, true, false, ◌||◌, if◌then◌else◌, length,
}
use seam.Prelude.Map.{lookup, Above}
use seam.Fec.Decoder.{Rows, GroupState, missing_from, keys, FecDecoder, new, new_group}
use seam.Fec.Decoder.Rows.{Shape}
use seam.Fec.Decoder.Missing.{
  Contents, missing_from-some, missing_from-none, All-keys, length-missing_from,
}
use seam.Fec.Encoder.Cauchy.{All}
use seam.Fec.Decoder.Groups.{Sources, AreRight, Has, Available}
use seam.Fec.Decoder.Taking.{Delivery, AllBelong, group}
use seam.Fec.Decoder.Deliveries.{
  deliver_all, is_some, arrived, repaired, here, new-Tracks, deliver_all-Run,
}

abbrev pub one_if : Bool → ℕ
one_if b = if b then 1 else 0

or_false : (b : Bool) → (b || false) ≡ b
or_false true = refl
or_false false = refl

-- How many of the `n` numbers from `i` on pass the test.
abbrev pub count : ℕ → ℕ → (ℕ → Bool) → ℕ
count zero i test = 0
count (suc n) i test = one_if (test i) + count n (i + 1) test

-- The number of different packets of the group: sources and repair symbols that are there at least
-- once.
abbrev pub distinct : ℕ → ℕ → List Delivery → ℕ
distinct k r ps = count k 0 (arrived ps) + count r 0 (repaired ps)

count_congr : (n i : ℕ) (p q : ℕ → Bool) → ((t : ℕ) → p t ≡ q t) → count n i p ≡ count n i q
count_congr zero i p q h = refl
count_congr (suc n) i p q h = λ t. one_if (h i t) + count_congr n (i + 1) p q h t

count-missing :
    (n i : ℕ) (m : Contents)
    → count n i (λ t. is_some (lookup t m)) + length (missing_from m n i) ≡ n
unfolding missing_from
count-missing zero i m = omega arith
count-missing (suc n) i m = elim (Option-cases (lookup i m)) [
  | inl none_ ↦
      rw (missing_from-none n i m none_)
        (omega (arith, count-missing n (i + 1) m, ap (λ o. one_if (is_some o)) none_))
  | inr (d, some_) ↦
      rw (missing_from-some n i m d some_)
        (omega (arith, count-missing n (i + 1) m, ap (λ o. one_if (is_some o)) some_))
]

-- What has arrived is what is held.
available :
    (ps : List Delivery) (j : ℕ) (g : GroupState) (out : Sources)
    → is_some (lookup j g.sources) ≡ arrived ps j
    → Available j g out
    → (arrived ps j ≡ true) ⊎ Has j out
available ps j g out held (inl (d, found)) = inl (sym held ∙ ap is_some found)
available ps j g out held (inr given) = inr given

count-held :
    (n : ℕ) (m : Contents)
    → Above 0 m
    → All (λ t. t < n) (keys m)
    → length m ≡ count n 0 (λ t. is_some (lookup t m))
count-held n m up low =
    omega (arith, count-missing n 0 m, length-missing_from n n 0 m (omega arith) up low)

module _ (group_id k r w : ℕ) (sources : Rows) (shape : Shape k w sources) (room : r + k ≤ 255)
    (positive : 1 ≤ k) where
  --
  pub deliver_all-restores :
      (ps : List Delivery)
      → AllBelong group_id k r w sources ps
      → k ≤ distinct k r ps
      → (j : ℕ) → j < k
      → (out : Sources) × (d : FecDecoder) × (deliver_all group_id k r new ps ≡ some (out, d))
        × AreRight sources out
        × ((arrived ps j ≡ true) ⊎ Has j out)
  unfolding new new_group group
  deliver_all-restores ps belong enough j h =
      let (out, d, run, t, held, held') =
        deliver_all-Run group_id k r w sources shape room positive new [] ps
          (new-Tracks group_id k r w sources shape room positive) belong in
      let g = here group_id k r w sources shape room positive d in
      let ok = t.sound.received in
      let those = λ (i : ℕ). held i ∙ or_false (arrived ps i) in
      let those' = λ (i : ℕ). held' i ∙ or_false (repaired ps i) in
      let many =
        count-held g.k g.sources ok.sources_up
          (All-keys (λ u. u < g.k) 0 g.sources ok.sources_up (λ u v e. (ok.each_source u v e).0))
        ∙ ap (λ n. count n 0 (λ u. is_some (lookup u g.sources))) t.k_same
        ∙ count_congr k 0 (λ u. is_some (lookup u g.sources)) (arrived ps) those in
      let many' =
        count-held g.r g.repairs ok.repairs_up (
          All-keys (λ u. u < g.r) 0 g.repairs ok.repairs_up (λ u v e. (ok.each_repair u v e).below))
        ∙ ap (λ n. count n 0 (λ u. is_some (lookup u g.repairs))) t.r_same
        ∙ count_congr r 0 (λ u. is_some (lookup u g.repairs)) (repaired ps) those' in
      (
        out,
        d,
        run,
        t.sound.right,
        available ps j g out (those j)
            (t.sound.done (t.full (omega (arith, many, many'))) j (omega (arith, t.k_same))),
      )
