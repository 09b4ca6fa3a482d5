-- ===== src/Fec/Encoder/Fractions.antt =====
-- Sums of fractions in the field, for the matrix of src/fec/codec.rs.
use seam.Prelude.{ℕ, ◌<◌, ◌≡◌, sym, ap, ◌∙◌, arith}
use seam.Fec.Field.{add, mul}
use seam.Fec.Field.Tables.{mul_one}
use seam.Fec.Field.Powers.{mul-byte}
use seam.Fec.Field.Laws.{mul_comm, mul-add, mul-mul}
use seam.Fec.Field.Sums.{add_comm, add_self, add-zero, zero-add, add-byte, add-mul, add_interchange}

ruleset bytes = (add-byte, mul-byte)

mul_left_comm : (a b c : ℕ) → a < 256 → b < 256 → c < 256 → mul a (mul b c) ≡ mul b (mul a c)
mul_left_comm a b c h k l =
    sym (mul-mul a b c h k l) ∙ ap (λ x. mul x c) (mul_comm a b) ∙ mul-mul b a c k h l

-- The point between two differences falls out.
add-through : (x y z : ℕ) → add (add x y) (add z y) ≡ add x z
add-through x y z = add_interchange x y z y ∙ ap (add (add x z)) (add_self y) ∙ add-zero (add x z)

-- 1 / (x + y) is `p`, so (x + b) / (x + y) is 1 + (b + y) / (x + y).
mul_shift :
    (x y b p : ℕ)
    → x < 256
    → y < 256
    → b < 256
    → p < 256
    → mul (add x y) p ≡ 1
    → mul (add x b) p ≡ add 1 (mul (add b y) p)
mul_shift x y b p h k l m one =
    ap (λ u. mul u p) (sym (add-through x y b))
    ∙ add-mul (add x y) (add b y) p (search bytes) (search bytes) m
    ∙ ap (λ u. add u (mul (add b y) p)) one

-- 1 / (x + y) + 1 / (a + y) is (x + a) / ((x + y) (a + y)).
sum_inverses :
    (x a y p q : ℕ)
    → x < 256
    → a < 256
    → y < 256
    → p < 256
    → q < 256
    → mul (add x y) p ≡ 1
    → mul (add a y) q ≡ 1
    → add p q ≡ mul (add x a) (mul p q)
sum_inverses x a y p q h k l m n one two =
    ap (add p) first
    ∙ ap (λ u. add u (mul (add x y) (mul p q))) second
    ∙ add_comm (mul (add a y) (mul p q)) (mul (add x y) (mul p q))
    ∙ sym (add-mul (add x y) (add a y) (mul p q) (search bytes) (search bytes) (search bytes))
    ∙ ap (λ u. mul u (mul p q)) (add-through x y a)
  where
    first : q ≡ mul (add x y) (mul p q)
    first =
        sym (mul_one q n) ∙ ap (λ u. mul u q) (sym one) ∙ mul-mul (add x y) p q (search bytes) m n

    second : p ≡ mul (add a y) (mul p q)
    second =
        sym (mul_one p m)
        ∙ ap (λ u. mul u p) (sym two)
        ∙ mul-mul (add a y) q p (search bytes) n m
        ∙ ap (mul (add a y)) (mul_comm q p)

-- The two multiples of a term, by x + b and by a + b, whose sum is a term of the smaller matrix.
pub sum_terms :
    (x a b y p q v : ℕ)
    → x < 256
    → a < 256
    → b < 256
    → y < 256
    → p < 256
    → q < 256
    → v < 256
    → mul (add x y) p ≡ 1
    → mul (add a y) q ≡ 1
    → add (mul (add x b) (mul p v)) (mul (add a b) (mul q v))
      ≡ mul (add x a) (mul p (mul (mul v (add b y)) q))
sum_terms x a b y p q v hx ha hb hy hp hq hv one two =
    (λ i. add (shifted x p hx hp one i) (shifted a q ha hq two i))
    ∙ add_interchange v (mul (mul c p) v) v (mul (mul c q) v)
    ∙ ap (λ u. add u (add (mul (mul c p) v) (mul (mul c q) v))) (add_self v)
    ∙ zero-add (add (mul (mul c p) v) (mul (mul c q) v))
    ∙ sym (add-mul (mul c p) (mul c q) v (mul-byte c p hc hp) (mul-byte c q hc hq) hv)
    ∙ ap (λ u. mul u v) (sym (mul-add c p q hc hp hq))
    ∙ ap (λ u. mul (mul c u) v) (sum_inverses x a y p q hx ha hy hp hq one two)
    ∙ mul_comm (mul c (mul d (mul p q))) v
    ∙ ap (mul v) (mul_left_comm c d (mul p q) hc hd hpq)
    ∙ mul_left_comm v d (mul c (mul p q)) hv hd (mul-byte c (mul p q) hc hpq)
    ∙ ap (mul d) (
        sym (mul-mul v c (mul p q) hv hc hpq)
        ∙ mul_left_comm (mul v c) p q (mul-byte v c hv hc) hp hq)
  where
    c : ℕ
    c = add b y

    d : ℕ
    d = add x a

    hc : c < 256
    hc = add-byte b y hb hy

    hd : d < 256
    hd = add-byte x a hx ha

    hpq : mul p q < 256
    hpq = mul-byte p q hp hq

    shifted :
        (z s : ℕ)
        → z < 256
        → s < 256
        → mul (add z y) s ≡ 1
        → mul (add z b) (mul s v) ≡ add v (mul (mul c s) v)
    shifted z s hz hs e =
        sym (mul-mul (add z b) s v (add-byte z b hz hb) hs hv)
        ∙ ap (λ u. mul u v) (mul_shift z y b s hz hy hb hs e)
        ∙ add-mul 1 (mul c s) v (omega arith) (mul-byte c s hc hs) hv
        ∙ ap (λ u. add u (mul (mul c s) v)) (mul_one v hv)
