-- ===== src/Crypto/Replay/Slide.antt =====
-- The slide of src/crypto/replay.rs's bitmap: 16 words shifted together by any number of positions.
use native.Mathlib.Nat.{lt_of_le_of_lt, div-le_self}
use seam.Prelude.{
  ℕ, zero, suc, ◌+◌, ◌-◌, ◌*◌, ◌/◌, ◌%◌, ◌^◌, ◌≤◌, ◌<◌, List, ◌≡◌, refl, sym, ap, ◌∙◌, inl, inr,
  arith, ltb, leb, leb→le, not-ltb, Bool-cases, length, get_or, get_or_beyond,
}
use seam.Prelude.Bits.{
  bit_at, bit_at-bit_or, bit_at-shr, bit_at-shl, bit_at-shl_below, bit_at-mod, bit_at-zero,
  bit_at_high, bit_or-lt,
}
use seam.Prelude.Bytes.{u64_mod}
use seam.Crypto.Replay.{words, slid_word, slid_words, slide_bitmap}
use seam.Crypto.Replay.Window.{seen, seen-empty, IsBitmap, empty-IsBitmap}

-- Bit `b` of slot `i` after the slide is bit `bit_shift + b` counted from word `i + word_shift`.
module _ (bitmap : List ℕ) (ws bs : ℕ) (v : IsBitmap bitmap) (fits : bs < 64) where
  word : ℕ → ℕ
  word i = get_or bitmap i 0

  low_bit : (i b : ℕ) → bit_at (word i / 2 ^ bs) b ≡ bit_at (word i) (bs + b)
  low_bit i b = bit_at-shr (word i) bs b

  high_bit : (i b : ℕ) → 64 ≤ b → bit_at (word i) b ≡ 0
  unfolding word
  high_bit i b h = bit_at_high (get_or bitmap i 0) 64 b (v.in_word i) h

  -- The part that comes from the next word.
  next_bit : (i b : ℕ) → b < 64 → bs + b < 64 → bit_at (word i * 2 ^ (64 - bs) % u64_mod) b ≡ 0
  next_bit i b h k =
      bit_at-mod (word i * 2 ^ (64 - bs)) 64 b h
      ∙ bit_at-shl_below (word i) (64 - bs) b (omega arith)

  carried_bit :
      (i b : ℕ)
      → b < 64
      → 64 ≤ bs + b
      → bit_at (word i * 2 ^ (64 - bs) % u64_mod) b ≡ bit_at (word i) (bs + b - 64)
  carried_bit i b h k =
      bit_at-mod (word i * 2 ^ (64 - bs)) 64 b h
      ∙ ap (bit_at (word i * 2 ^ (64 - bs))) split
      ∙ bit_at-shl (word i) (64 - bs) (bs + b - 64)
    where
      split : b ≡ 64 - bs + (bs + b - 64)
      split = omega arith

  past_end : (i b : ℕ) → words ≤ i → bit_at (word i) b ≡ 0
  unfolding word
  past_end i b h = rw (get_or_beyond bitmap i 0 (omega (arith, v.sixteen))) (bit_at-zero b)

  slid_word_low :
      (i b : ℕ)
      → b < 64
      → bs + b < 64
      → bit_at (slid_word bitmap ws bs i) b ≡ bit_at (word (i + ws)) (bs + b)
  unfolding slid_word word
  slid_word_low i b h k = ground (
    arith,
    low_bit (i + ws) b,
    next_bit (i + ws + 1) b h k,
    past_end (i + ws) (bs + b),
    bit_at-zero b,
    bit_at-bit_or (word (i + ws) / 2 ^ bs) (word (i + ws + 1) * 2 ^ (64 - bs) % u64_mod) b,
  )

  slid_word_high :
      (i b : ℕ)
      → b < 64
      → 64 ≤ bs + b
      → bit_at (slid_word bitmap ws bs i) b ≡ bit_at (word (i + ws + 1)) (bs + b - 64)
  unfolding slid_word word
  slid_word_high i b h k = ground (
    arith,
    low_bit (i + ws) b,
    high_bit (i + ws) (bs + b),
    carried_bit (i + ws + 1) b h k,
    past_end (i + ws + 1) (bs + b - 64),
    bit_at-zero b,
    bit_at-bit_or (word (i + ws) / 2 ^ bs) (word (i + ws + 1) * 2 ^ (64 - bs) % u64_mod) b,
  )

get_or-slid_words :
    (n : ℕ) (bitmap : List ℕ) (ws bs i j : ℕ)
    → j < n
    → get_or (slid_words n bitmap ws bs i) j 0 ≡ slid_word bitmap ws bs (i + j)
unfolding slid_words
get_or-slid_words zero bitmap ws bs i j h = absurd (omega arith)
get_or-slid_words (suc n) bitmap ws bs i zero h = ap (slid_word bitmap ws bs) (omega arith)
get_or-slid_words (suc n) bitmap ws bs i (suc j) h =
    get_or-slid_words n bitmap ws bs (i + 1) j (omega arith)
    ∙ ap (slid_word bitmap ws bs) (omega arith)

length-slid_words :
    (n : ℕ) (bitmap : List ℕ) (ws bs i : ℕ) → length (slid_words n bitmap ws bs i) ≡ n
unfolding slid_words
length-slid_words zero bitmap ws bs i = refl
length-slid_words (suc n) bitmap ws bs i = ap suc (length-slid_words n bitmap ws bs (i + 1))

slid_word-lt :
    (bitmap : List ℕ) (ws bs i : ℕ) → IsBitmap bitmap → slid_word bitmap ws bs i < u64_mod
unfolding slid_word
slid_word-lt bitmap ws bs i v = ground (
  arith,
  low,
  bit_or-lt 64 (get_or bitmap (i + ws) 0 / 2 ^ bs)
      (get_or bitmap (i + ws + 1) 0 * 2 ^ (64 - bs) % u64_mod),
)
  where
    low : get_or bitmap (i + ws) 0 / 2 ^ bs < u64_mod
    low = lt_of_le_of_lt (div-le_self (get_or bitmap (i + ws) 0) (2 ^ bs)) (v.in_word (i + ws))

word_index :
    (q s : ℕ)
    → q % 64 + s % 64 < 64
    → ((q + s) / 64 ≡ q / 64 + s / 64) × ((q + s) % 64 ≡ s % 64 + q % 64)
word_index q s h = omega arith

next_index :
    (q s : ℕ)
    → 64 ≤ q % 64 + s % 64
    → ((q + s) / 64 ≡ q / 64 + s / 64 + 1) × ((q + s) % 64 ≡ s % 64 + q % 64 - 64)
next_index q s h = omega arith

-- Sliding by `s` moves position `q + s` to position `q`; what was not seen stays unseen.
pub seen-slid_words :
    (bitmap : List ℕ) (s q : ℕ)
    → IsBitmap bitmap
    → q < 1024
    → seen (slid_words words bitmap (s / 64) (s % 64) 0) q ≡ seen bitmap (q + s)
unfolding word
seen-slid_words bitmap s q v h =
    ap (λ w. bit_at w (q % 64)) (slot ∙ ap (slid_word bitmap (s / 64) (s % 64)) same)
    ∙ elim (Bool-cases (ltb (q % 64 + s % 64) 64)) [
      | inl below ↦
          let k : q % 64 + s % 64 < 64 = ground arith in
          slid_word_low bitmap (s / 64) (s % 64) v (omega arith) (q / 64) (q % 64) (omega arith)
            (omega arith)
          ∙ rw ((word_index q s k).0, (word_index q s k).1) refl
      | inr above ↦
          let k : 64 ≤ q % 64 + s % 64 = ground arith in
          slid_word_high bitmap (s / 64) (s % 64) v (omega arith) (q / 64) (q % 64) (omega arith)
            (omega arith)
          ∙ rw ((next_index q s k).0, (next_index q s k).1) refl
    ]
  where
    slot :
        get_or (slid_words words bitmap (s / 64) (s % 64) 0) (q / 64) 0
        ≡ slid_word bitmap (s / 64) (s % 64) (0 + q / 64)
    slot = get_or-slid_words words bitmap (s / 64) (s % 64) 0 (q / 64) (omega arith)

    same : 0 + q / 64 ≡ q / 64
    same = omega arith

-- Sliding a valid bitmap by `s` moves the bit at `q + s` to `q`, for every `q` of the window; what
-- comes from beyond the window is clear.
pub seen-slide_bitmap :
    (bitmap : List ℕ) (s q : ℕ)
    → IsBitmap bitmap
    → q < 1024
    → seen (slide_bitmap bitmap s) q ≡ seen bitmap (q + s)
unfolding slide_bitmap
seen-slide_bitmap bitmap s q v h = elim (Bool-cases (leb 1024 s)) [
  | inl far ↦
      rw (far, seen-empty q)
        (sym (
          ap (λ w. bit_at w ((q + s) % 64))
            (get_or_beyond bitmap ((q + s) / 64) 0 (omega (arith, v.sixteen, leb→le 1024 s far)))
          ∙ bit_at-zero ((q + s) % 64)))
  | inr near ↦ rw near (seen-slid_words bitmap s q v h)
]

in_word-slid_words :
    (bitmap : List ℕ) (ws bs j : ℕ)
    → IsBitmap bitmap
    → get_or (slid_words words bitmap ws bs 0) j 0 < u64_mod
in_word-slid_words bitmap ws bs j v = elim (Bool-cases (ltb j words)) [
  | inl inside ↦
      rw (get_or-slid_words words bitmap ws bs 0 j (ground arith))
        (slid_word-lt bitmap ws bs (0 + j) v)
  | inr outside ↦
      rw
        (get_or_beyond (slid_words words bitmap ws bs 0) j 0
          (omega (arith, length-slid_words words bitmap ws bs 0, not-ltb j words outside)))
        (omega arith)
]

pub slide_bitmap-IsBitmap :
    (bitmap : List ℕ) (s : ℕ) → IsBitmap bitmap → IsBitmap (slide_bitmap bitmap s)
unfolding slide_bitmap
slide_bitmap-IsBitmap bitmap s v = elim (Bool-cases (leb 1024 s)) [
  | inl far ↦ rw far empty-IsBitmap
  | inr near ↦ rw near (record {
    sixteen = length-slid_words words bitmap (s / 64) (s % 64) 0;
    in_word = λ j. in_word-slid_words bitmap (s / 64) (s % 64) j v;
  })
]

pub seen_past_end : (bitmap : List ℕ) (p : ℕ) → IsBitmap bitmap → 1024 ≤ p → seen bitmap p ≡ 0
seen_past_end bitmap p v h =
    rw (get_or_beyond bitmap (p / 64) 0 (omega (arith, v.sixteen))) (bit_at-zero (p % 64))
