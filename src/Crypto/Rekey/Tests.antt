-- ===== src/Crypto/Rekey/Tests.antt =====
-- An instance of the theorem about src/crypto/rekey.rs.
use seam.Prelude.{List, [], ◌∷◌, arith}
use seam.Crypto.Cipher.{aes256_gcm}
use seam.Crypto.Cipher.Toy.{toy}
use seam.Crypto.Rekey.Chain.{Use, prepares, rotates, AtEpoch, after, after-AtEpoch}

abbrev uses : List Use
uses = rotates ∷ rotates ∷ prepares ∷ prepares ∷ []

after-AtEpoch_example : AtEpoch toy (5 ∷ []) aes256_gcm 2 (after toy (5 ∷ []) aes256_gcm uses)
after-AtEpoch_example = after-AtEpoch toy (5 ∷ []) aes256_gcm uses (omega arith)
