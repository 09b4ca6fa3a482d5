-- ===== src/Fec/Decoder/Rows.antt =====
-- What the row operations of `gauss_rhs` in src/fec/codec.rs do to each entry of a matrix.
use seam.Prelude.{
  ℕ, zero, suc, ◌≤◌, ◌<◌, List, [], ◌∷◌, ◌≡◌, ◌≢◌, ◌⊎◌, inl, inr, refl, sym, ap, ◌∙◌, arith, ◌==◌,
  ltb, if◌then◌else◌, true, false, Bool-cases, length, get_or, set, length-set, get_or-set_self,
  get_or-set_ne, length-map, get_or_beyond,
}
use mathlib.Core.Path.{subst}
use seam.Fec.Field.{add, mul}
use seam.Fec.Field.Powers.{mul-byte, mul_nothing}
use seam.Fec.Field.Sums.{add_lem, add-zero, add-byte}
use seam.Fec.Encoder.Repairs.{AllBytes, HaveLength}
use seam.Fec.Decoder.{Rows, entry, swap, scale, add_row, scale_row}

-- `k` rows of `w` bytes.
pub record Shape (k w : ℕ) (rows : Rows) : Type 0 where
  pub size : length rows ≡ k
  pub wide : HaveLength w k rows
  pub bytes : AllBytes rows

-- What the new row and the old rows have, each row has after a write.
replaced :
    (P : List ℕ → Type 0) (rows : Rows) (i t : ℕ) (row : List ℕ)
    → i < length rows
    → P row
    → P (get_or rows t [])
    → P (get_or (set rows i row) t [])
replaced P rows i t row h new old = elim (Bool-cases (i == t)) [
  | inl same ↦
      let e : i ≡ t = ground arith in
      subst P (sym (get_or-set_self rows i row [] h) ∙ ap (λ u. get_or (set rows i row) u []) e) new
  | inr other ↦ subst P (sym (get_or-set_ne rows i t row [] (ground arith))) old
]

pub set-Shape :
    (k w : ℕ) (rows : Rows) (i : ℕ) (row : List ℕ)
    → Shape k w rows
    → i < k
    → length row ≡ w
    → ((p : ℕ) → get_or row p 0 < 256)
    → Shape k w (set rows i row)
set-Shape k w rows i row s h l b =
    let inside : i < length rows = omega (arith, s.size) in
    record {
      size = length-set rows i row ∙ s.size;
      wide = λ t below. replaced (λ x. length x ≡ w) rows i t row inside l (s.wide t below);
      bytes = λ t p. replaced (λ x. get_or x p 0 < 256) rows i t row inside (b p) (s.bytes t p);
    }

-- The row that stands at `t` after a swap of the rows `a` and `b`.
abbrev pub swap_index : ℕ → ℕ → ℕ → ℕ
swap_index a b t = if t == b then a else if t == a then b else t

pub get_or-swap :
    (a b t : ℕ) (rows : Rows)
    → a < length rows
    → b < length rows
    → get_or (swap a b rows) t [] ≡ get_or rows (swap_index a b t) []
get_or-swap a b t rows h k = elim (Bool-cases (t == b)) [
  | inl last ↦
      let e : b ≡ t = ground arith in
      let there : swap_index a b t ≡ a = rw last refl in
      sym (ap (λ u. get_or (swap a b rows) u []) e)
      ∙ get_or-set_self (set rows a (get_or rows b [])) b (get_or rows a []) []
          (omega (arith, length-set rows a (get_or rows b [])))
      ∙ ap (λ u. get_or rows u []) (sym there)
  | inr other ↦
      get_or-set_ne (set rows a (get_or rows b [])) b t (get_or rows a []) [] (ground arith)
      ∙ (elim (Bool-cases (t == a)) [
        | inl first ↦
            let e : a ≡ t = ground arith in
            let there : swap_index a b t ≡ b = rw other (rw first refl) in
            sym (ap (λ u. get_or (set rows a (get_or rows b [])) u []) e)
            ∙ get_or-set_self rows a (get_or rows b []) [] h
            ∙ ap (λ u. get_or rows u []) (sym there)
        | inr neither ↦
            let there : swap_index a b t ≡ t = rw other (rw neither refl) in
            get_or-set_ne rows a t (get_or rows b []) [] (ground arith)
            ∙ ap (λ u. get_or rows u []) (sym there)
      ])
]

pub swap-Shape :
    (k w a b : ℕ) (rows : Rows) → Shape k w rows → a < k → b < k → Shape k w (swap a b rows)
swap-Shape k w a b rows s h l =
    set-Shape k w _ b _ (set-Shape k w rows a _ s h (s.wide b l) (s.bytes b)) l (s.wide a h)
      (s.bytes a)

pub get_or-scale : (c p : ℕ) (row : List ℕ) → get_or (scale c row) p 0 ≡ mul (get_or row p 0) c
get_or-scale c p [] = sym (mul_nothing c)
get_or-scale c zero (x ∷ row) = refl
get_or-scale c (suc p) (x ∷ row) = get_or-scale c p row

pub scale_row-Shape :
    (k w col c : ℕ) (rows : Rows)
    → Shape k w rows
    → col < k
    → c < 256
    → Shape k w (scale_row col c rows)
scale_row-Shape k w col c rows s h b =
    set-Shape k w rows col _ s h (length-map (λ v. mul v c) (get_or rows col []) ∙ s.wide col h)
      (λ p.
        rw (get_or-scale c p (get_or rows col []))
          (mul-byte (entry rows col p) c (s.bytes col p) b))

pub length-add_row : (f : ℕ) (dst src : List ℕ) → length (add_row f dst src) ≡ length dst
unfolding add_row
length-add_row f [] src = refl
length-add_row f (d ∷ dst) [] = refl
length-add_row f (d ∷ dst) (s ∷ src) = ap suc (length-add_row f dst src)

pub add_row-at :
    (f : ℕ) (dst src : List ℕ) (p : ℕ)
    → length dst ≤ length src
    → p < length dst
    → get_or (add_row f dst src) p 0 ≡ add (get_or dst p 0) (mul f (get_or src p 0))
unfolding add_row
add_row-at f [] src p h l = absurd (omega arith)
add_row-at f (d ∷ dst) [] p h l = absurd (omega arith)
add_row-at f (d ∷ dst) (s ∷ src) zero h l = add_lem d (mul f s)
add_row-at f (d ∷ dst) (s ∷ src) (suc p) h l = add_row-at f dst src p (omega arith) (omega arith)

-- To the row `r` the multiple by `f` of the row `col` is added, and the other rows are as before.
pub record AddsRow (k w col f r : ℕ) (rows rows' : Rows) : Type 0 where
  pub shape : Shape k w rows'
  pub at : (p : ℕ) → p < w → entry rows' r p ≡ add (entry rows r p) (mul f (entry rows col p))
  pub others : (i : ℕ) → i ≢ r → get_or rows' i [] ≡ get_or rows i []

pub unchanged : (k w col r : ℕ) (rows : Rows) → Shape k w rows → AddsRow k w col 0 r rows rows
unchanged k w col r rows s = record {
  shape = s;
  at = λ p h.
      sym (ap (add (entry rows r p)) (mul_nothing (entry rows col p)) ∙ add-zero (entry rows r p));
  others = λ i h. refl;
}

-- A row of the right sums, written at `r`.
pub written :
    (k w col f r : ℕ) (rows : Rows) (row : List ℕ)
    → Shape k w rows
    → r < k
    → f < 256
    → length row ≡ w
    → ((p : ℕ) → p < w → get_or row p 0 ≡ add (entry rows r p) (mul f (entry rows col p)))
    → AddsRow k w col f r rows (set rows r row)
written k w col f r rows row s h b l e =
    let inside : r < length rows = omega (arith, s.size) in
    let self = get_or-set_self rows r row [] inside in
    record {
      shape = set-Shape k w rows r row s h l (λ p. small p (Bool-cases (ltb p w)));
      at = λ p m. ap (λ x. get_or x p 0) self ∙ e p m;
      others = λ i n. get_or-set_ne rows r i row [] (λ q. n (sym q));
    }
  where
    small : (p : ℕ) → (ltb p w ≡ true) ⊎ (ltb p w ≡ false) → get_or row p 0 < 256
    small p (inl within) = omega (
      arith,
      e p (ground arith),
      add-byte (entry rows r p) (mul f (entry rows col p)) (s.bytes r p)
          (mul-byte f (entry rows col p) b (s.bytes col p)),
    )
    small p (inr beyond) = omega (arith, get_or_beyond row p 0 (ground arith))
