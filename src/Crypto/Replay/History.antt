-- ===== src/Crypto/Replay/History.antt =====
-- The window of src/crypto/replay.rs over any sequence of packet numbers.
use seam.Prelude.{
  ℕ, ◌+◌, ◌≤◌, List, [], ◌∷◌, Bool, true, false, ◌||◌, ◌≡◌, ◌≢◌, refl, ◌⊎◌, inl, inr, arith, ltb,
  ◌==◌, if◌then◌else◌, Bool-cases,
}
use seam.Error.{SeamError, Result, ok, err, replay, too_old}
use seam.Crypto.Replay.{ReplayWindow, check, commit, check_and_insert}
use seam.Crypto.Replay.Effect.{
  IsValid, received, check_lem, commit_old, commit_replay, commit_fresh, Accepted,
}

-- `seq` is never to be accepted again.
abbrev pub spent : ReplayWindow → ℕ → Bool
spent w seq = ltb seq w.base_seq || received w seq

-- In a valid window `check` and `commit` agree: a number that `check` lets through is one that
-- `commit` accepts, and one that `check` refuses is refused by `commit` with the same error and
-- leaves the window as it is.
pub check-commit :
    (w : ReplayWindow) (seq : ℕ)
    → IsValid w
    → (check w seq ≡ (commit w seq).0) × (check w seq ≢ ok tt → (commit w seq).1 ≡ w)
check-commit w seq v = elim (Bool-cases (ltb seq w.base_seq)) [
  | inl old ↦ rw (commit_old w seq (ground arith)) (ground (arith, check_lem w seq))
  | inr young ↦ elim (Bool-cases (received w seq)) [
    | inl twice ↦ rw (commit_replay w seq v twice) (ground (arith, check_lem w seq))
    | inr fresh ↦
        let a : Accepted w seq (commit w seq) = commit_fresh w seq v (ground arith) fresh in
        ground (arith, check_lem w seq, a.answer)
  ]
]

insert_passed :
    (w : ReplayWindow) (seq : ℕ) → check w seq ≡ ok tt → check_and_insert w seq ≡ commit w seq
unfolding check_and_insert
insert_passed w seq h = ground arith

-- In a valid window `check_and_insert` refuses a spent number, with the error that says why, and
-- changes nothing. It accepts every other: then the window is valid and remembers that number and
-- all it still covers.
pub check_and_insert_lem :
    (w : ReplayWindow) (seq : ℕ)
    → IsValid w
    → ((spent w seq ≡ true)
        × (check_and_insert w seq
            ≡ (err (if ltb seq w.base_seq then too_old seq else replay seq), w)))
      ⊎ ((spent w seq ≡ false) × Accepted w seq (check_and_insert w seq))
check_and_insert_lem w seq v = elim (Bool-cases (spent w seq)) [
  | inl used ↦ inl (used, unfold check_and_insert in ground (arith, check_lem w seq))
  | inr fresh ↦
      let passed : check w seq ≡ ok tt = ground (arith, check_lem w seq) in
      inr (
        fresh,
        rw (insert_passed w seq passed) (commit_fresh w seq v (ground arith) (ground arith)),
      )
]

Accepted-spent_self :
    (w : ReplayWindow) (seq : ℕ) (out : Result (Unit {0}) × ReplayWindow)
    → Accepted w seq out
    → spent out.1 seq ≡ true
Accepted-spent_self w seq out a = ground (arith, a.memory seq)

Accepted-spent :
    (w : ReplayWindow) (seq s : ℕ) (out : Result (Unit {0}) × ReplayWindow)
    → Accepted w seq out
    → spent w s ≡ true
    → spent out.1 s ≡ true
Accepted-spent w seq s out a h = ground (arith, a.memory s, a.base)

-- The numbers of a sequence that are accepted, in order.
accepted_of : Result (Unit {0}) → ℕ → List ℕ → List ℕ
accepted_of (ok _) seq rest = seq ∷ rest
accepted_of (err e) seq rest = rest

unfoldable pub receive_all : ReplayWindow → List ℕ → List ℕ
unfolding accepted_of
receive_all w [] = []
receive_all w (seq ∷ seqs) =
    let (answer, w') = check_and_insert w seq in accepted_of answer seq (receive_all w' seqs)

abbrev pub count : ℕ → List ℕ → ℕ
count a [] = 0
count a (x ∷ xs) = (if a == x then 1 else 0) + count a xs

receive_all-refused :
    (w : ReplayWindow) (seq : ℕ) (seqs : List ℕ) (e : SeamError)
    → check_and_insert w seq ≡ (err e, w)
    → receive_all w (seq ∷ seqs) ≡ receive_all w seqs
unfolding receive_all
receive_all-refused w seq seqs e h = rw h

receive_all-accepted :
    (w : ReplayWindow) (seq : ℕ) (seqs : List ℕ)
    → (check_and_insert w seq).0 ≡ ok tt
    → receive_all w (seq ∷ seqs) ≡ seq ∷ receive_all (check_and_insert w seq).1 seqs
unfolding receive_all
receive_all-accepted w seq seqs h = rw h

count-receive_all-spent :
    (w : ReplayWindow) (s : ℕ) (seqs : List ℕ)
    → IsValid w
    → spent w s ≡ true
    → count s (receive_all w seqs) ≡ 0
count-receive_all-spent w s [] v h = unfold receive_all in refl
count-receive_all-spent w s (seq ∷ seqs) v h = elim (check_and_insert_lem w seq v) [
  | inl (used, e) ↦ rw (receive_all-refused w seq seqs _ e) (count-receive_all-spent w s seqs v h)
  | inr (fresh, a) ↦ rw (receive_all-accepted w seq seqs a.answer) (
      ground (
        arith,
        count-receive_all-spent (check_and_insert w seq).1 s seqs a.valid
            (Accepted-spent w seq s _ a h),
      ))
]

-- From a valid window, whatever numbers arrive, in whatever order and however often, none is
-- accepted twice.
pub count-receive_all :
    (w : ReplayWindow) (seqs : List ℕ) (s : ℕ) → IsValid w → count s (receive_all w seqs) ≤ 1
count-receive_all w [] s v = unfold receive_all in omega arith
count-receive_all w (seq ∷ seqs) s v = elim (check_and_insert_lem w seq v) [
  | inl (used, e) ↦ rw (receive_all-refused w seq seqs _ e) (count-receive_all w seqs s v)
  | inr (fresh, a) ↦ rw (receive_all-accepted w seq seqs a.answer) (
      ground (
        arith,
        count-receive_all (check_and_insert w seq).1 seqs s a.valid,
        count-receive_all-spent (check_and_insert w seq).1 seq seqs a.valid
            (Accepted-spent_self w seq _ a),
      ))
]
