-- ===== src/Crypto/Encoder/Tests.antt =====
-- Instances of the theorems about src/crypto/encoder.rs.
use seam.Prelude.{ℕ, List, [], ◌∷◌, refl, arith, replicate}
use seam.Packet.{data_frame, ping}
use seam.Crypto.Cipher.{chacha20_poly1305}
use seam.Crypto.Cipher.Toy.{toy, toy-IsLawful}
use seam.Crypto.Keys.{PacketKeys}
use seam.Crypto.Encoder.{PacketEncoder}
use seam.Crypto.Encoder.Nonces.{Call, Seals, Distinct, nonces-Distinct}

abbrev keys : PacketKeys
keys = record {
  enc_key = replicate 32 1;
  hp_key = replicate 32 2;
  nonce_base = replicate 12 3;
  cipher_suite = chacha20_poly1305;
}

abbrev sender : PacketEncoder
sender = record { keys = keys; session_id = 77; next_pkt_num = 0 }

-- The second buffer is too small.
abbrev calls : List Call
calls =
    (data_frame, 1 ∷ 2 ∷ [], replicate 50 0)
    ∷ (ping, [], replicate 20 0)
    ∷ (ping, [], replicate 48 0)
    ∷ []

nonces-Distinct_example : (ns : List (List ℕ)) × Seals toy sender calls ns × Distinct ns
nonces-Distinct_example = nonces-Distinct toy sender calls toy-IsLawful refl (omega arith)
