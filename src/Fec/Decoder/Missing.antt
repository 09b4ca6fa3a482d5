-- ===== src/Fec/Decoder/Missing.antt =====
-- The missing sources of a group and the repairs at hand, in src/fec/codec.rs.
use seam.Prelude.{
  ℕ, zero, suc, ◌+◌, ◌≤◌, ◌<◌, List, [], ◌∷◌, ◌≡◌, ◌⊎◌, inl, inr, none, some, refl, sym, ap, ◌∙◌,
  arith, ◌==◌, Bool-cases, Option-cases, length, take,
}
use seam.Prelude.Map.{Map, lookup, Above, lookup_below, Above-mono}
use mathlib.Core.Path.{subst}
use seam.Fec.Field.{add}
use seam.Fec.Field.Sums.{total, zero-add}
use seam.Fec.Encoder.Cauchy.{Ascends, All, sum_over}
use seam.Fec.Decoder.{missing_from, keys}

abbrev pub Contents : Type 0
Contents = Map (List ℕ)

-- What holds of every key that is found holds of the keys.
pub All-keys :
    (P : ℕ → Type 0) (n : ℕ) (m : Contents)
    → Above n m
    → ((t : ℕ) (v : List ℕ) → lookup t m ≡ some v → P t)
    → All P (keys m)
All-keys P n [] up h = tt
All-keys P n ((k, v) ∷ m) up h =
    (h k v (ground arith), All-keys P (suc k) m up.1 (λ t u e. h t u (later t u e)))
  where
    later : (t : ℕ) (u : List ℕ) → lookup t m ≡ some u → lookup t ((k, v) ∷ m) ≡ some u
    later t u e = ground (arith, e, lookup_below (suc k) t m up.1)

pub Ascends-keys : (n : ℕ) (m : Contents) → Above n m → Ascends n (keys m)
Ascends-keys n [] up = tt
Ascends-keys n ((k, v) ∷ m) up = (up.0, Ascends-keys (suc k) m up.1)

pub length-keys : (m : Contents) → length (keys m) ≡ length m
length-keys [] = refl
length-keys ((k, v) ∷ m) = ap suc (length-keys m)

pub Ascends-take : (n j : ℕ) (xs : List ℕ) → Ascends n xs → Ascends n (take j xs)
Ascends-take n zero xs h = tt
Ascends-take n (suc j) [] h = tt
Ascends-take n (suc j) (x ∷ xs) h = (h.0, Ascends-take (suc x) j xs h.1)

pub All-take : (P : ℕ → Type 0) (j : ℕ) (xs : List ℕ) → All P xs → All P (take j xs)
All-take P zero xs h = tt
All-take P (suc j) [] h = tt
All-take P (suc j) (x ∷ xs) h = (h.0, All-take P j xs h.1)

-- A key before the first index plays no part.
missing_from-skip :
    (k : ℕ) (v : List ℕ) (m : Contents) (n i : ℕ)
    → k < i
    → missing_from ((k, v) ∷ m) n i ≡ missing_from m n i
unfolding missing_from
missing_from-skip k v m zero i h = refl
missing_from-skip k v m (suc n) i h = ground (arith, missing_from-skip k v m n (i + 1))

pub missing_from-some :
    (n i : ℕ) (m : Contents) (v : List ℕ)
    → lookup i m ≡ some v
    → missing_from m (suc n) i ≡ missing_from m n (i + 1)
unfolding missing_from
missing_from-some n i m v e = rw (e, missing_from) refl

pub missing_from-none :
    (n i : ℕ) (m : Contents)
    → lookup i m ≡ none
    → missing_from m (suc n) i ≡ i ∷ missing_from m n (i + 1)
unfolding missing_from
missing_from-none n i m e = rw (e, missing_from) refl

-- The sources that are there and those that are missing are `n` together.
pub length-missing_from :
    (top n i : ℕ) (m : Contents)
    → top ≡ i + n
    → Above i m
    → All (λ t. t < top) (keys m)
    → length m + length (missing_from m n i) ≡ n
unfolding missing_from
length-missing_from top zero i [] e up low = refl
length-missing_from top zero i ((k, v) ∷ m) e up low = absurd (omega (arith, up.0, low.0))
length-missing_from top (suc n) i [] e up low =
    omega (arith, length-missing_from top n (i + 1) [] (omega arith) tt tt)
length-missing_from top (suc n) i ((k, v) ∷ m) e up low = elim (Bool-cases (k == i)) [
  | inl here ↦ omega (
    arith,
    ap length (
        missing_from-some n i ((k, v) ∷ m) v (ground arith)
        ∙ missing_from-skip k v m n (i + 1) (ground arith)),
    length-missing_from top n (i + 1) m (omega arith)
        (Above-mono (i + 1) (suc k) m (ground arith) up.1) low.1,
  )
  | inr later ↦
      let after : i + 1 ≤ k = ground (arith, up.0) in
      omega (
        arith,
        ap length (
            missing_from-none n i ((k, v) ∷ m)
              (lookup_below k i ((k, v) ∷ m) (omega arith, up.1) (omega arith))),
        length-missing_from top n (i + 1) ((k, v) ∷ m) (omega arith) (after, up.1) low,
      )
]

Ascends-mono : (n n' : ℕ) (xs : List ℕ) → n ≤ n' → Ascends n' xs → Ascends n xs
Ascends-mono n n' [] h a = tt
Ascends-mono n n' (x ∷ xs) h a = (omega (arith, a.0), a.1)

-- The missing indices ascend, lie in the range, and are those at which there is no source.
pub Ascends-missing_from : (n i : ℕ) (m : Contents) → Ascends i (missing_from m n i)
unfolding missing_from
Ascends-missing_from zero i m = tt
Ascends-missing_from (suc n) i m = elim (Option-cases (lookup i m)) [
  | inl none_ ↦ subst (Ascends i) (sym (missing_from-none n i m none_)) (
    omega arith,
    subst (λ j. Ascends j (missing_from m n (i + 1))) (omega arith)
        (Ascends-missing_from n (i + 1) m),
  )
  | inr (v, some_) ↦ subst (Ascends i) (sym (missing_from-some n i m v some_)) (
      Ascends-mono i (i + 1) (missing_from m n (i + 1)) (omega arith)
        (Ascends-missing_from n (i + 1) m))
]

pub All-missing_from :
    (P : ℕ → Type 0) (n i : ℕ) (m : Contents)
    → ((t : ℕ) → i ≤ t → t < i + n → lookup t m ≡ none → P t)
    → All P (missing_from m n i)
unfolding missing_from
All-missing_from P zero i m h = tt
All-missing_from P (suc n) i m h =
    let rest = All-missing_from P n (i + 1) m (λ t l k e. h t (omega arith) (omega arith) e) in
    elim (Option-cases (lookup i m)) [
      | inl none_ ↦
          subst (All P) (sym (missing_from-none n i m none_))
            (h i (omega arith) (omega arith) none_, rest)
      | inr (v, some_) ↦ subst (All P) (sym (missing_from-some n i m v some_)) rest
    ]

pub from-All-missing :
    (P : ℕ → Type 0) (n i : ℕ) (m : Contents)
    → All P (missing_from m n i)
    → (t : ℕ) → i ≤ t
    → t < i + n
    → lookup t m ≡ none
    → P t
unfolding missing_from
from-All-missing P zero i m a t h l e = absurd (omega arith)
from-All-missing P (suc n) i m a t h l e = elim (Bool-cases (t == i)) [
  | inl here ↦
      let same : i ≡ t = ground arith in
      subst P same (subst (All P) (missing_from-none n i m (ap (λ u. lookup u m) same ∙ e)) a).0
  | inr later ↦
      from-All-missing P n (i + 1) m (rest (Option-cases (lookup i m))) t (ground arith)
        (omega arith) e
]
  where
    rest :
        (lookup i m ≡ none) ⊎ ((v : List ℕ) × (lookup i m ≡ some v))
        → All P (missing_from m n (i + 1))
    rest (inl none_) = (subst (All P) (missing_from-none n i m none_) a).1
    rest (inr (v, some_)) = subst (All P) (missing_from-some n i m v some_) a

-- A sum of which the terms at the sources are 0 is the sum over the missing indices.
pub total-missing :
    (n i : ℕ) (m : Contents) (f : ℕ → ℕ)
    → ((t : ℕ) (v : List ℕ) → i ≤ t → t < i + n → lookup t m ≡ some v → f t ≡ 0)
    → total n i f ≡ sum_over (missing_from m n i) f
unfolding missing_from total sum_over
total-missing zero i m f h = refl
total-missing (suc n) i m f h =
    let rest = total-missing n (i + 1) m f (λ t v l k. h t v (omega arith) (omega arith)) in
    elim (Option-cases (lookup i m)) [
      | inl none_ ↦
          ap (add (f i)) rest ∙ sym (ap (λ xs. sum_over xs f) (missing_from-none n i m none_))
      | inr (v, some_) ↦
          ap (λ x. add x (total n (i + 1) f)) (h i v (omega arith) (omega arith) some_)
          ∙ zero-add (total n (i + 1) f)
          ∙ rest
          ∙ sym (ap (λ xs. sum_over xs f) (missing_from-some n i m v some_))
    ]
