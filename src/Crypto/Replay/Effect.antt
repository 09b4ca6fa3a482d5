-- ===== src/Crypto/Replay/Effect.antt =====
-- What `check` and `commit` of src/crypto/replay.rs answer, and which numbers count as received
-- afterwards, over the window seen as a set.
use seam.Prelude.{
  ℕ, ◌+◌, ◌-◌, ◌≤◌, ◌<◌, max, Bool, true, false, ◌&&◌, ◌||◌, ◌≡◌, ◌≢◌, refl, ap, ◌∙◌, inl, inr,
  arith, ltb, leb, ◌==◌, if◌then◌else◌, Bool-cases,
}
use seam.Error.{Result, ok, err, replay, too_old}
use seam.Crypto.Replay.{ReplayWindow, new, is_set, mark, check, slide_bitmap, slide_to, commit}
use seam.Crypto.Replay.Window.{
  seen, IsBitmap, empty-IsBitmap, is_set-seen, seen-mark_self, seen-mark_ne, mark-IsBitmap,
}
use seam.Crypto.Replay.Slide.{seen-slide_bitmap, slide_bitmap-IsBitmap, seen_past_end}

-- The numbers that the window remembers as received.
abbrev pub received : ReplayWindow → ℕ → Bool
received w s =
    leb w.base_seq s && (ltb (s - w.base_seq) 1024 && (seen w.bitmap (s - w.base_seq) == 1))

abbrev pub IsValid : ReplayWindow → Type 0
IsValid w = IsBitmap w.bitmap

pub new-IsValid : IsValid new
unfolding new
new-IsValid = empty-IsBitmap

record Slid (w w' : ReplayWindow) (seq : ℕ) : Type 0 where
  base : w'.base_seq ≡ max w.base_seq (seq - 1023)
  valid : IsValid w'
  bits :
      (s : ℕ)
      → w'.base_seq ≤ s
      → s - w'.base_seq < 1024
      → seen w'.bitmap (s - w'.base_seq) ≡ seen w.bitmap (s - w.base_seq)

slide_to-far :
    (w : ReplayWindow) (seq : ℕ)
    → leb 1024 (seq - w.base_seq) ≡ true
    → slide_to w seq ≡ record {
      base_seq = w.base_seq + (seq - w.base_seq - 1023);
      bitmap = slide_bitmap w.bitmap (seq - w.base_seq - 1023);
    }
unfolding slide_to
slide_to-far w seq h = rw h

slide_to-near :
    (w : ReplayWindow) (seq : ℕ) → leb 1024 (seq - w.base_seq) ≡ false → slide_to w seq ≡ w
unfolding slide_to
slide_to-near w seq h = rw h

slide_to-Slid :
    (w : ReplayWindow) (seq : ℕ) → IsValid w → w.base_seq ≤ seq → Slid w (slide_to w seq) seq
slide_to-Slid w seq v h = elim (Bool-cases (leb 1024 (seq - w.base_seq))) [
  | inl far ↦ rw (slide_to-far w seq far) (record {
    base = ground arith;
    valid = slide_bitmap-IsBitmap w.bitmap (seq - w.base_seq - 1023) v;
    bits = λ s le lt.
        seen-slide_bitmap w.bitmap (seq - w.base_seq - 1023) _ v lt
        ∙ ap (seen w.bitmap)
            {x = s - (w.base_seq + (seq - w.base_seq - 1023)) + (seq - w.base_seq - 1023)}
            {y = s - w.base_seq} (ground arith);
  })
  | inr near ↦
      rw (slide_to-near w seq near)
        (record { base = ground arith; valid = v; bits = λ s le lt. refl })
]

-- Whether the bit of `seq` is set after the slide.
is_set-slide_to :
    (w : ReplayWindow) (seq : ℕ)
    → IsValid w
    → w.base_seq ≤ seq
    → is_set (slide_to w seq).bitmap (seq - (slide_to w seq).base_seq) ≡ received w seq
is_set-slide_to w seq v h =
    rw (is_set-seen (slide_to w seq).bitmap (seq - (slide_to w seq).base_seq))
      (ground (arith, d.base, d.bits seq, seen_past_end w.bitmap (seq - w.base_seq) v))
  where
    d : Slid w (slide_to w seq) seq
    d = slide_to-Slid w seq v h

-- `check` refuses what is older than the window and what was received, and nothing else.
pub check_lem :
    (w : ReplayWindow) (seq : ℕ)
    → check w seq ≡ (
        if ltb seq w.base_seq
        then err (too_old seq)
        else if received w seq
        then err (replay seq)
        else ok tt)
unfolding check
check_lem w seq = ground (arith, is_set-seen w.bitmap (seq - w.base_seq))

commit-unfold :
    (w : ReplayWindow) (seq : ℕ)
    → IsValid w
    → w.base_seq ≤ seq
    → commit w seq ≡ (
        if received w seq then (err (replay seq), slide_to w seq) else (
          ok tt,
          record (slide_to w seq) {
            bitmap = mark (slide_to w seq).bitmap (seq - (slide_to w seq).base_seq);
          },
        ))
unfolding commit
commit-unfold w seq v h = ground (arith, is_set-slide_to w seq v h)

received_in_window :
    (w : ReplayWindow) (seq : ℕ)
    → received w seq ≡ true
    → (w.base_seq ≤ seq) × (seq < w.base_seq + 1024)
received_in_window w seq h = ground arith

pub commit_old :
    (w : ReplayWindow) (seq : ℕ) → seq < w.base_seq → commit w seq ≡ (err (too_old seq), w)
unfolding commit
commit_old w seq h = ground arith

pub commit_replay :
    (w : ReplayWindow) (seq : ℕ)
    → IsValid w
    → received w seq ≡ true
    → commit w seq ≡ (err (replay seq), w)
commit_replay w seq v r =
    commit-unfold w seq v (received_in_window w seq r).0
    ∙ rw (r, slide_to-near w seq (ground (arith, received_in_window w seq r))) refl

-- What an accepted commit leaves: `seq` is received, the window reaches 1023 numbers back, and of
-- the others exactly those still in the window are remembered.
pub record Accepted (w : ReplayWindow) (seq : ℕ) (out : Result (Unit {0}) × ReplayWindow)
    : Type 0 where
  pub answer : out.0 ≡ ok tt
  pub valid : IsValid out.1
  pub base : out.1.base_seq ≡ max w.base_seq (seq - 1023)
  pub memory : (s : ℕ) → received out.1 s ≡ ((s == seq) || (leb out.1.base_seq s && received w s))

module _ (w w' : ReplayWindow) (seq : ℕ) (v : IsValid w) (h : w.base_seq ≤ seq)
    (d : Slid w w' seq) where
  position-lt : seq - w'.base_seq < 1024
  position-lt = omega (arith, d.base)

  received-mark_self :
      received (record w' { bitmap = mark w'.bitmap (seq - w'.base_seq) }) seq ≡ true
  received-mark_self =
      ground (arith, d.base, seen-mark_self w'.bitmap (seq - w'.base_seq) d.valid position-lt)

  received-mark_ne :
      (s : ℕ)
      → s ≢ seq
      → received (record w' { bitmap = mark w'.bitmap (seq - w'.base_seq) }) s
        ≡ (leb w'.base_seq s && received w s)
  received-mark_ne s ne = ground (
    arith,
    d.base,
    d.bits s,
    seen-mark_ne w'.bitmap (seq - w'.base_seq) (s - w'.base_seq) d.valid position-lt,
    seen_past_end w.bitmap (s - w.base_seq) v,
  )

pub commit_fresh :
    (w : ReplayWindow) (seq : ℕ)
    → IsValid w
    → w.base_seq ≤ seq
    → received w seq ≡ false
    → Accepted w seq (commit w seq)
commit_fresh w seq v h f =
    rw (commit-unfold w seq v h, f)
      (record {
        answer = refl;
        valid = mark-IsBitmap _ _ d.valid (position-lt w _ seq v h d);
        base = d.base;
        memory = λ s. elim (Bool-cases (s == seq)) [
          | inl same ↦
              let e : s ≡ seq = ground arith in
              rw (e) (ground (arith, received-mark_self w (slide_to w seq) seq v h d))
          | inr other ↦ rw other (received-mark_ne w (slide_to w seq) seq v h d s (ground arith))
        ];
      })
  where
    d : Slid w (slide_to w seq) seq
    d = slide_to-Slid w seq v h

-- The first packet number is fresh to a new window.
pub check-new : check new 0 ≡ ok tt
unfolding check is_set new
check-new = refl
