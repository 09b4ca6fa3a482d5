-- ===== src/Crypto/Replay/Tests.antt =====
-- Runs of src/crypto/replay.rs's window and instances of the theorems about it.
use seam.Prelude.{ℕ, ◌+◌, ◌^◌, ◌≤◌, ◌≡◌, refl, List, [], ◌∷◌, ◌⊎◌, true, false, ltb, if◌then◌else◌}
use seam.Error.{err, replay, too_old}
use seam.Crypto.Replay.{
  new, is_set, mark, check, slid_word, slid_words, slide_bitmap, slide_to, commit, check_and_insert,
}
use seam.Crypto.Replay.Effect.{new-IsValid, Accepted}
use seam.Crypto.Replay.History.{spent, receive_all, count, check_and_insert_lem, count-receive_all}

abbrev arrivals : List ℕ
arrivals = 5 ∷ 3 ∷ 5 ∷ 2000 ∷ 0 ∷ 1500 ∷ 3 ∷ 1500 ∷ 2001 ∷ []

-- 5 comes twice; 2000 slides the window past 0 and 3.
receive_all-arrivals : receive_all new arrivals ≡ 5 ∷ 3 ∷ 2000 ∷ 1500 ∷ 2001 ∷ []
unfolding receive_all check_and_insert check commit slide_to slide_bitmap slid_words slid_word mark
    is_set new
receive_all-arrivals = refl

-- A slide by 70: one word and six bits.
abbrev two_words : List ℕ
two_words = 0 ∷ 2 ^ 6 ∷ 1 ∷ 0 ∷ 0 ∷ 0 ∷ 0 ∷ 0 ∷ 0 ∷ 0 ∷ 0 ∷ 0 ∷ 0 ∷ 0 ∷ 0 ∷ 0 ∷ []

slide_two_words :
    slide_bitmap two_words 70
    ≡ (1 + 2 ^ 58) ∷ 0 ∷ 0 ∷ 0 ∷ 0 ∷ 0 ∷ 0 ∷ 0 ∷ 0 ∷ 0 ∷ 0 ∷ 0 ∷ 0 ∷ 0 ∷ 0 ∷ 0 ∷ []
unfolding slide_bitmap slid_words slid_word
slide_two_words = refl

check_and_insert_lem_example :
    ((spent new 2000 ≡ true)
      × (check_and_insert new 2000
          ≡ (err (if ltb 2000 new.base_seq then too_old 2000 else replay 2000), new)))
    ⊎ ((spent new 2000 ≡ false) × Accepted new 2000 (check_and_insert new 2000))
check_and_insert_lem_example = check_and_insert_lem new 2000 new-IsValid

count-receive_all_example : count 5 (receive_all new arrivals) ≤ 1
count-receive_all_example = count-receive_all new arrivals 5 new-IsValid
