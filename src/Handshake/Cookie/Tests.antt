-- ===== src/Handshake/Cookie/Tests.antt =====
-- Instances of the theorems about src/handshake/cookie.rs, with a hash that keeps the data.
use seam.Prelude.{ℕ, List, [], ◌∷◌, ◌++◌, true, ◌≡◌, ◌⊎◌, arith, replicate}
use seam.Prelude.Bytes.{to_le}
use seam.Handshake.Cookie.{new, generate, verify}
use seam.Handshake.Cookie.Window.{verify-generate, verify_sound, verify_epoch}

abbrev toy_hash : List ℕ → List ℕ → List ℕ
toy_hash key message = key ++ message

abbrev address : List ℕ
address = 127 ∷ 0 ∷ 0 ∷ 1 ∷ []

verify-generate_example :
    verify toy_hash 125 (new (7 ∷ [])) address (generate toy_hash 100 (new (7 ∷ [])) address) ≡ true
verify-generate_example =
    verify-generate toy_hash (7 ∷ []) address 100 125 (omega arith) (omega arith)

verify_sound_example :
    (generate toy_hash 100 (new (7 ∷ [])) address ≡ toy_hash (7 ∷ []) (address ++ to_le 8 4))
    ⊎ (generate toy_hash 100 (new (7 ∷ [])) address ≡ toy_hash (7 ∷ []) (address ++ to_le 8 3))
unfolding new
verify_sound_example =
    verify_sound toy_hash (new (7 ∷ [])) address (generate toy_hash 100 (new (7 ∷ [])) address) 125
      (omega arith) (verify-generate toy_hash (7 ∷ []) address 100 125 (omega arith) (omega arith))

verify_epoch_example : verify toy_hash 12 (new (7 ∷ [])) address (replicate 32 0) ≡ true
verify_epoch_example = verify_epoch toy_hash (7 ∷ []) address 12 (omega arith)
