-- ===== src/Prelude/Splice.antt =====
-- Parts of a buffer, read and written in place: what slices and `copy_from_slice` do within bounds.
use Prim.Native.Nat.{ℕ, ◌+◌, ◌-◌, ◌≤◌}
use mathlib.Core.Path.{◌≡◌, sym, ap, ap₂, ◌∙◌}
use mathlib.Core.List.{List, [], ◌++◌, append_assoc, append-nil}
use native.Mathlib.Omega.{arith}
use seam.Prelude.Lists.{
  length, take, drop, length-append, drop-append, take-append, drop-drop, length-take, length-drop,
  take-append-drop,
}
use seam.Prelude.Bytes.{slice}

-- `buf[at..at + bytes.len()].copy_from_slice(bytes)`
abbrev pub write_at : ℕ → List ℕ → List ℕ → List ℕ
write_at at bytes buf = take at buf ++ bytes ++ drop (at + length bytes) buf

module _ {ℓ} {A : Type ℓ} where
  pub take-front : (a b : List A) (n : ℕ) → length a ≡ n → take n (a ++ b) ≡ a
  take-front a b n h = ap (λ k. take k (a ++ b)) (sym h) ∙ take-append a b

  pub drop-front : (a b : List A) (n : ℕ) → length a ≡ n → drop n (a ++ b) ≡ b
  drop-front a b n h = ap (λ k. drop k (a ++ b)) (sym h) ∙ drop-append a b

  pub slice-front : (a b : List A) (n : ℕ) → length a ≡ n → slice (a ++ b) 0 n ≡ a
  slice-front a b n h = ap (λ k. take k (a ++ b)) {y = n} (omega arith) ∙ take-front a b n h

  -- The middle of three parts, of which the first ends at `i` and the second at `j`.
  pub slice-middle :
      (a b c : List A) (i j : ℕ) → length a ≡ i → i + length b ≡ j → slice (a ++ b ++ c) i j ≡ b
  slice-middle a b c i j h k =
      ap (λ l. take (j - i) (drop i l)) (append_assoc a b c)
      ∙ ap (take (j - i)) (drop-front a (b ++ c) i h)
      ∙ take-front b c (j - i) (omega arith)

  pub slice-end :
      (a b : List A) (i j : ℕ) → length a ≡ i → i + length b ≡ j → slice (a ++ b) i j ≡ b
  slice-end a b i j h k =
      ap (λ l. slice l i j) (sym (append-nil (a ++ b))) ∙ slice-middle a b [] i j h k

pub write_at-front :
    (bytes old rest : List ℕ)
    → length bytes ≡ length old
    → write_at 0 bytes (old ++ rest) ≡ bytes ++ rest
write_at-front bytes old rest h =
    ap (◌++◌ bytes) (drop-front old rest (0 + length bytes) (omega arith))

pub write_at-middle :
    (a bytes old rest : List ℕ) (n : ℕ)
    → length a ≡ n
    → length bytes ≡ length old
    → write_at n bytes (a ++ old ++ rest) ≡ a ++ bytes ++ rest
write_at-middle a bytes old rest n h k =
    ap₂ (λ u v. u ++ bytes ++ v)
      (ap (take n) (append_assoc a old rest) ∙ take-front a (old ++ rest) n h)
      (drop-front (a ++ old) rest (n + length bytes) (omega (arith, length-append a old)))

-- A buffer that is long enough, cut in two.
pub cut :
    (n : ℕ) (buf : List ℕ)
    → n ≤ length buf
    → (a : List ℕ) × (b : List ℕ) × (a ++ b ≡ buf) × (length a ≡ n) × (length b ≡ length buf - n)
cut n buf h = (
  take n buf,
  drop n buf,
  take-append-drop n buf,
  omega (arith, length-take n buf),
  length-drop n buf,
)

pub slice-skip {ℓ} :
    {A : Type ℓ} (a r : List A) (n i j : ℕ)
    → length a ≡ n
    → slice (a ++ r) (n + i) (n + j) ≡ slice r i j
slice-skip a r n i j h =
    ap (λ m. take m (drop (n + i) (a ++ r))) {y = j - i} (omega arith)
    ∙ ap (take (j - i)) (sym (drop-drop i n (a ++ r)) ∙ ap (drop i) (drop-front a r n h))
