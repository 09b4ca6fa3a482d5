-- ===== src/Crypto/Ratchet/Tests.antt =====
-- Instances of the theorems about src/crypto/ratchet.rs, with a derivation that keeps the data.
use Prim.Native.String.{String, find}
use seam.Prelude.{ℕ, ◌+◌, get_or, ◌++◌, List, [], ◌∷◌, some, ◌≡◌, refl, replicate}
use seam.Crypto.Ratchet.{RatchetStep, DoubleRatchet, next_send_key, next_recv_key}
use seam.Crypto.Ratchet.Steps.{stepped, followed, after_step-keys}
use seam.Crypto.Ratchet.Chains.{cleared, next_recv_key_second}

abbrev toy_derive : String → List ℕ → List ℕ
toy_derive context bytes = bytes

abbrev announced : RatchetStep
announced = record { new_ephemeral_public = replicate 32 5; epoch = 3 }

abbrev sender : DoubleRatchet
sender = record {
  root_key = 1 ∷ [];
  send_chain_key = 8 ∷ [];
  recv_chain_key = 9 ∷ [];
  send_epoch = 0;
  recv_epoch = 0;
  packets_in_epoch = 0;
  epoch_packet_limit = 1000;
  epoch_time_limit = 1000;
  last_ratchet = 0;
  our_ephemeral = [];
  their_ephemeral = [];
  skipped = [];
}

abbrev receiver : DoubleRatchet
receiver = record sender { send_chain_key = 9 ∷ []; recv_chain_key = 8 ∷ [] }

next_recv_key_second_example :
    let first = next_recv_key toy_derive 0 (cleared toy_derive receiver) 0 0 in
    let s1 = (next_send_key toy_derive sender).1 in
    let s2 = (next_send_key toy_derive s1).1 in
    (first.0 ≡ some (next_send_key toy_derive sender).0)
    × ((next_recv_key toy_derive 5 first.1 0 1).0 ≡ some (next_send_key toy_derive s2).0)
next_recv_key_second_example = next_recv_key_second toy_derive 0 5 sender receiver refl

-- The two ends know each other's public keys, which are the secrets here, and a shared secret is a sum.
abbrev aware : DoubleRatchet
aware = record sender { their_ephemeral = 4 ∷ [] }

abbrev peer : DoubleRatchet
peer = record receiver { our_ephemeral = 4 ∷ [] }

abbrev kept : List ℕ → List ℕ
kept secret = secret

abbrev added : List ℕ → List ℕ → List ℕ
added secret public = (get_or secret 0 0 + get_or public 0 0) ∷ []

-- A derivation that tells the contexts of a send chain apart from the others.
abbrev telling_derive : String → List ℕ → List ℕ
telling_derive context bytes = find context "send" ∷ bytes

after_step-keys_example :
    (root : List ℕ) × (root ≡ telling_derive "seam ratchet root 2026" (1 ∷ 11 ∷ []))
    × ((stepped telling_derive added kept 0 (7 ∷ []) aware).1.root_key ≡ root)
    × ((followed telling_derive added kept peer
          (stepped telling_derive added kept 0 (7 ∷ []) aware).0).root_key
        ≡ root)
    × ((next_send_key telling_derive (stepped telling_derive added kept 0 (7 ∷ []) aware).1).0
        ≡ telling_derive "seam ratchet message 2026"
            (telling_derive "seam ratchet send-chain 2026" root ++ (2 ∷ [])))
    × ((next_recv_key telling_derive 5
          (followed telling_derive added kept peer
            (stepped telling_derive added kept 0 (7 ∷ []) aware).0)
          (stepped telling_derive added kept 0 (7 ∷ []) aware).1.send_epoch
          0).0
        ≡ some (
            telling_derive "seam ratchet message 2026"
              (telling_derive "seam ratchet recv-chain 2026" root ++ (2 ∷ []))))
after_step-keys_example =
    after_step-keys telling_derive added kept 0 5 (7 ∷ []) aware peer refl refl refl
