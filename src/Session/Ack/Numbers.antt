-- ===== src/Session/Ack/Numbers.antt =====
-- The set of packet numbers of src/session/ack.rs, and the ranges that `build_frame` makes of it.
use seam.Prelude.{
  ℕ, suc, ◌+◌, ◌-◌, ◌≤◌, ◌<◌, List, [], ◌∷◌, Bool, true, false, ◌&&◌, ◌||◌, ◌≡◌, refl, arith, leb,
  ◌==◌, Bool-cases, inl, inr, length,
}
use seam.Prelude.Bytes.{u64_mod}
use seam.Prelude.Words.{add64}
use seam.Session.Ack.{set_insert, split_off, walk}
use seam.Session.Ack.Frame.{Descending}

abbrev pub mem : ℕ → List ℕ → Bool
mem n [] = false
mem n (x ∷ xs) = (x == n) || mem n xs

-- The elements descend, from below `b`.
abbrev pub Below : ℕ → List ℕ → Type 0
Below b [] = Unit
Below b (x ∷ xs) = (x < b) × Below x xs

abbrev pub AtLeast : ℕ → List ℕ → Type 0
AtLeast lo [] = Unit
AtLeast lo (x ∷ xs) = (lo ≤ x) × AtLeast lo xs

-- `n` is in one of the ranges.
abbrev pub covered : ℕ → List (ℕ × ℕ) → Bool
covered n [] = false
covered n ((start, end_) ∷ ranges) = (leb start n && leb n end_) || covered n ranges

pub mem-set_insert : (n pn : ℕ) (xs : List ℕ) → mem n (set_insert pn xs) ≡ ((pn == n) || mem n xs)
unfolding set_insert
mem-set_insert n pn [] = refl
mem-set_insert n pn (x ∷ xs) = ground (arith, mem-set_insert n pn xs)

pub set_insert-Below : (b pn : ℕ) (xs : List ℕ) → pn < b → Below b xs → Below b (set_insert pn xs)
unfolding set_insert
set_insert-Below b pn [] h d = (h, tt)
set_insert-Below b pn (x ∷ xs) h (k, d) = ground (arith, set_insert-Below x pn xs)

pub mem-split_off : (n lo : ℕ) (xs : List ℕ) → mem n (split_off lo xs) ≡ (leb lo n && mem n xs)
unfolding split_off
mem-split_off n lo [] = ground arith
mem-split_off n lo (x ∷ xs) = ground (arith, mem-split_off n lo xs)

pub Below-mono : (b b' : ℕ) (xs : List ℕ) → b ≤ b' → Below b xs → Below b' xs
Below-mono b b' [] h d = tt
Below-mono b b' (x ∷ xs) h (k, d) = (omega arith, d)

pub split_off-Below : (b lo : ℕ) (xs : List ℕ) → Below b xs → Below b (split_off lo xs)
unfolding split_off
split_off-Below b lo [] d = tt
split_off-Below b lo (x ∷ xs) (k, d) =
    ground (arith, split_off-Below x lo xs d, Below-mono x b (split_off lo xs))

pub split_off-AtLeast : (lo : ℕ) (xs : List ℕ) → AtLeast lo (split_off lo xs)
unfolding split_off
split_off-AtLeast lo [] = tt
split_off-AtLeast lo (x ∷ xs) = ground (arith, split_off-AtLeast lo xs)

-- Descending numbers in an interval are no more than it is long.
pub length_le : (b lo : ℕ) (xs : List ℕ) → Below b xs → AtLeast lo xs → length xs ≤ b - lo
length_le b lo [] d a = omega arith
length_le b lo (x ∷ xs) (k, d) (h, a) = omega (arith, length_le x lo xs d a)

-- What the ranges from `walk` are.
pub record Walked (rest : List ℕ) (cs ce : ℕ) (ranges : List (ℕ × ℕ)) : Type 0 where
  pub start : ℕ
  pub extra : List (ℕ × ℕ)
  pub made : ranges ≡ (start, ce) ∷ extra
  pub within : start ≤ cs
  pub descending : Descending start extra
  pub few : length extra ≤ length rest
  pub exact : (n : ℕ) → covered n ranges ≡ ((leb cs n && leb n ce) || mem n rest)

pub walk-Walked :
    (rest : List ℕ) (cs ce : ℕ)
    → cs ≤ ce
    → ce < u64_mod
    → Below cs rest
    → Walked rest cs ce (walk rest cs ce)
unfolding walk
walk-Walked [] cs ce h k d = record {
  start = cs;
  extra = [];
  made = refl;
  within = omega arith;
  descending = tt;
  few = omega arith;
  exact = λ n. refl;
}
walk-Walked (pn ∷ rest) cs ce h k (b, d) = elim (Bool-cases (add64 pn 1 == cs)) [
  | inl joined ↦
      let w = walk-Walked rest pn ce (omega arith) k d in
      rw joined (record {
        start = w.start;
        extra = w.extra;
        made = w.made;
        within = omega (arith, w.within);
        descending = w.descending;
        few = omega (arith, w.few);
        exact = λ n. ground (arith, w.exact n, adjacent);
      })
  | inr apart ↦
      let w = walk-Walked rest pn pn (omega arith) (omega arith) d in
      rw apart (record {
        start = cs;
        extra = walk rest pn pn;
        made = refl;
        within = omega arith;
        descending = rw w.made (w.within, b, w.descending);
        few = rw w.made (omega (arith, w.few));
        exact = λ n. ground (arith, w.exact n);
      })
]
  where
    adjacent : (add64 pn 1 == cs) ≡ true → pn + 1 ≡ cs
    adjacent e = ground arith

-- The largest element is the first.
pub head_lem : (n x : ℕ) (xs : List ℕ) → Below (suc n) (x ∷ xs) → mem n (x ∷ xs) ≡ true → x ≡ n
head_lem n x xs (h, d) m = ground (arith, mem-lt n x xs d)
  where
    mem-lt : (n b : ℕ) (ys : List ℕ) → Below b ys → mem n ys ≡ true → n < b
    mem-lt n b [] d m = absurd (ground arith)
    mem-lt n b (y ∷ ys) (k, d) m = ground (arith, mem-lt n y ys d)
