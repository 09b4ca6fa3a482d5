-- ===== src/Crypto/Replay.antt =====
-- src/crypto/replay.rs: the anti-replay window of 1024 packet numbers, as 16 words of 64 bits.
-- A number `seq` in the window owns bit `(seq - base_seq) % 64` of word `(seq - base_seq) / 64`.
mod Tests
pub mod Window
pub mod Slide
pub mod Effect
pub mod History
use seam.Prelude.{
  ℕ, zero, suc, ◌+◌, ◌-◌, ◌*◌, ◌/◌, ◌%◌, ◌^◌, List, [], ◌∷◌, Bool, not, ltb, leb, ◌==◌, ◌&&◌,
  if◌then◌else◌, get_or, set, replicate,
}
use seam.Prelude.Bits.{bit_and, bit_or}
use seam.Prelude.Bytes.{u64_mod}
use seam.Error.{Result, ok, err, ◌>>=◌, replay, too_old}

pub record ReplayWindow : Type 0 where
  pub base_seq : ℕ
  pub bitmap : List ℕ

abbrev pub words : ℕ
words = 16

pub new : ReplayWindow
new = record { base_seq = 0; bitmap = replicate words 0 }

-- `self.bitmap[word] & (1u64 << bit) != 0`
pub is_set : List ℕ → ℕ → Bool
is_set bitmap bit_pos =
    let word = bit_pos / 64 in
    let bit = bit_pos % 64 in not (bit_and (get_or bitmap word 0) (2 ^ bit) == 0)

-- `self.bitmap[word] |= 1u64 << bit`
pub mark : List ℕ → ℕ → List ℕ
mark bitmap bit_pos =
    let word = bit_pos / 64 in
    let bit = bit_pos % 64 in set bitmap word (bit_or (get_or bitmap word 0) (2 ^ bit))

pub check : ReplayWindow → ℕ → Result (Unit {0})
unfolding is_set
check w seq =
    if ltb seq w.base_seq
    then err (too_old seq)
    else if ltb (seq - w.base_seq) 1024
    then (if is_set w.bitmap (seq - w.base_seq) then err (replay seq) else ok tt)
    else ok tt

-- One slot of `new_bitmap`. A slot past the last word keeps its initial 0.
pub slid_word : List ℕ → ℕ → ℕ → ℕ → ℕ
slid_word bitmap word_shift bit_shift i =
    let src = i + word_shift in
    let low = get_or bitmap src 0 / 2 ^ bit_shift in
    if ltb src words
    then (if ltb 0 bit_shift && ltb (src + 1) words
        then bit_or low (get_or bitmap (src + 1) 0 * 2 ^ (64 - bit_shift) % u64_mod)
        else low)
    else 0

-- `for (i, slot) in new_bitmap.iter_mut().enumerate()`, with `n` slots left, the next of them `i`.
pub slid_words : ℕ → List ℕ → ℕ → ℕ → ℕ → List ℕ
slid_words zero bitmap word_shift bit_shift i = []
slid_words (suc n) bitmap word_shift bit_shift i =
    slid_word bitmap word_shift bit_shift i ∷ slid_words n bitmap word_shift bit_shift (i + 1)

pub slide_bitmap : List ℕ → ℕ → List ℕ
slide_bitmap bitmap slide =
    if leb 1024 slide
    then replicate words 0
    else slid_words words bitmap (slide / 64) (slide % 64) 0

-- "Slide window forward if needed". `base_seq + slide` is `seq - 1023`, so it does not wrap.
pub slide_to : ReplayWindow → ℕ → ReplayWindow
slide_to w seq =
    let offset = seq - w.base_seq in
    if leb 1024 offset
    then record {
      base_seq = w.base_seq + (offset - 1023);
      bitmap = slide_bitmap w.bitmap (offset - 1023);
    }
    else w

-- The window is slid also where the bit turns out to be set.
pub commit : ReplayWindow → ℕ → Result (Unit {0}) × ReplayWindow
commit w seq =
    if ltb seq w.base_seq
    then (err (too_old seq), w)
    else let w' = slide_to w seq in
      let bit_pos = seq - w'.base_seq in
      if is_set w'.bitmap bit_pos
      then (err (replay seq), w')
      else (ok tt, record w' { bitmap = mark w'.bitmap bit_pos })

pub check_and_insert : ReplayWindow → ℕ → Result (Unit {0}) × ReplayWindow
check_and_insert w seq = elim (check w seq) [ err e ↦ (err e, w) | ok _ ↦ commit w seq ]
