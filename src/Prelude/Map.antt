-- ===== src/Prelude/Map.antt =====
-- `BTreeMap` with number keys, as an association list in ascending order of the keys.
use Prim.Native.Nat.{ℕ, suc, ◌≤◌, ◌<◌}
use mathlib.Core.Path.{◌≡◌, refl, sym, ◌∙◌}
use mathlib.Core.Logic.{◌⊎◌, inl, inr}
use mathlib.Core.Bool.{Bool, true, false}
use mathlib.Core.List.{List, [], ◌∷◌}
use mathlib.Core.Option.{Option, none, some}
use native.Mathlib.Omega.{arith}
use seam.Prelude.Tests.{ltb, ◌==◌, if◌then◌else◌}
use seam.Prelude.Lists.{length}

abbrev pub Map {ℓ} : Type ℓ → Type ℓ
Map V = List (ℕ × V)

module _ {ℓ} {V : Type ℓ} where
  abbrev pub lookup : ℕ → Map V → Option V
  lookup k [] = none
  lookup k ((j, v) ∷ m) = if j == k then some v else lookup k m

  abbrev pub insert : ℕ → V → Map V → Map V
  insert k v [] = (k, v) ∷ []
  insert k v ((j, w) ∷ m) =
      let rest = insert k v m in
      if ltb k j then (k, v) ∷ (j, w) ∷ m else if j == k then (k, v) ∷ m else (j, w) ∷ rest

  abbrev pub remove : ℕ → Map V → Map V
  remove k [] = []
  remove k ((j, w) ∷ m) = let rest = remove k m in if j == k then rest else (j, w) ∷ rest

  pub lookup-insert :
      (k j : ℕ) (v : V) (m : Map V)
      → lookup j (insert k v m) ≡ (if k == j then some v else lookup j m)
  lookup-insert k j v [] = refl
  lookup-insert k j v ((i, w) ∷ m) = ground (arith, lookup-insert k j v m)

  pub lookup-remove :
      (k j : ℕ) (m : Map V) → lookup j (remove k m) ≡ (if k == j then none else lookup j m)
  lookup-remove k j [] = ground arith
  lookup-remove k j ((i, w) ∷ m) = ground (arith, lookup-remove k j m)

  -- The keys ascend and are at least `n`.
  abbrev pub Above : ℕ → Map V → Type 0
  Above n [] = Unit
  Above n ((k, v) ∷ m) = (n ≤ k) × Above (suc k) m

  pub Above-mono : (n n' : ℕ) (m : Map V) → n ≤ n' → Above n' m → Above n m
  Above-mono n n' [] h a = tt
  Above-mono n n' ((k, v) ∷ m) h a = (omega arith, a.1)

  pub Above-insert : (n k : ℕ) (v : V) (m : Map V) → n ≤ k → Above n m → Above n (insert k v m)
  Above-insert n k v [] h a = (h, tt)
  Above-insert n k v ((j, w) ∷ m) h a = ground (arith, Above-insert (suc j) k v m, a.1, a.0)

  pub Above-remove : (n k : ℕ) (m : Map V) → Above n m → Above n (remove k m)
  Above-remove n k [] a = tt
  Above-remove n k ((j, w) ∷ m) a =
      ground (arith, Above-remove (suc j) k m a.1, Above-mono n (suc j) (remove k m))

  pub lookup_below : (n k : ℕ) (m : Map V) → Above n m → k < n → lookup k m ≡ none
  lookup_below n k [] a h = refl
  lookup_below n k ((j, w) ∷ m) a h = ground (arith, lookup_below (suc j) k m a.1)

  pub length-remove-le : (k : ℕ) (m : Map V) → length (remove k m) ≤ length m
  length-remove-le k [] = omega arith
  length-remove-le k ((j, w) ∷ m) = ground (arith, length-remove-le k m)

  pub length-insert_new :
      (k : ℕ) (v : V) (m : Map V) → lookup k m ≡ none → length (insert k v m) ≡ suc (length m)
  length-insert_new k v [] h = refl
  length-insert_new k v ((j, w) ∷ m) h = ground (arith, length-insert_new k v m)

  pub length-insert_old :
      (n k : ℕ) (v w : V) (m : Map V)
      → Above n m
      → lookup k m ≡ some w
      → length (insert k v m) ≡ length m
  length-insert_old n k v w [] a h = ground arith
  length-insert_old n k v w ((j, u) ∷ m) a h =
      ground (arith, length-insert_old (suc j) k v w m a.1, lookup_below (suc j) k m a.1)

  pub lookup-insert_inv :
      (k j : ℕ) (v w : V) (m : Map V)
      → lookup j (insert k v m) ≡ some w
      → (k ≡ j) ⊎ (lookup j m ≡ some w)
  lookup-insert_inv k j v w m h = either (k == j) refl (sym (lookup-insert k j v m) ∙ h)
    where
      either :
          (b : Bool)
          → (k == j) ≡ b
          → (if b then some v else lookup j m) ≡ some w
          → (k ≡ j) ⊎ (lookup j m ≡ some w)
      either true e g = inl (ground arith)
      either false e g = inr g
