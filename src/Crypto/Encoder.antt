-- ===== src/Crypto/Encoder.antt =====
-- src/crypto/encoder.rs: packets from plaintext. The code keeps `next_pkt_num` in an atomic that
-- `fetch_add` raises; here the encoder with its counter raised is part of the result, as is `out`.
pub mod Shape
pub mod Nonces
mod Tests
use seam.Prelude.{ℕ, ◌+◌, List, [], ◌∷◌, ◌++◌, ltb, if◌then◌else◌, length, take, drop, replicate}
use seam.Prelude.Bytes.{to_le, slice}
use seam.Prelude.Splice.{write_at}
use seam.Prelude.Words.{add64}
use seam.Prelude.Xor.{xor_bytes}
use seam.Error.{Result, ok, err, buffer_too_small}
use seam.Packet.{PktType, to_u8, header_len, encode_buf_len}
use seam.Crypto.Cipher.{Primitives, encrypt_in_place}
use seam.Crypto.Keys.{PacketKeys, apply_header_protection}

pub record PacketEncoder : Type 0 where
  pub keys : PacketKeys
  pub session_id : ℕ
  pub next_pkt_num : ℕ

pub new : PacketKeys → ℕ → PacketEncoder
new keys session_id = record { keys = keys; session_id = session_id; next_pkt_num = 0 }

pub peek_next_pkt_num : PacketEncoder → ℕ
peek_next_pkt_num e = e.next_pkt_num

-- The 32 bytes of `header`, written field by field: version, type, flags and a reserved word, the
-- session, the packet number, and reserved bytes.
abbrev pub make_header : PktType → ℕ → ℕ → List ℕ
make_header pkt_type session_id pkt_num =
    (1 ∷ to_u8 pkt_type ∷ replicate 6 0) ++ to_le 8 session_id ++ to_le 8 pkt_num ++ replicate 8 0

-- "nonce_base XOR packet_number", which the decoder computes in the same words.
unfoldable pub packet_nonce : List ℕ → ℕ → List ℕ
packet_nonce nonce_base pkt_num = xor_bytes nonce_base (to_le 8 pkt_num)

-- What is written to `out` once the cipher has turned the payload into `payload_buf`.
abbrev pub seal_packet : Primitives → PacketKeys → ℕ → List ℕ → List ℕ → List ℕ
seal_packet P keys cipher_len payload_buf out =
    let out1 = write_at header_len (take cipher_len payload_buf) out in
    let out2 = write_at (header_len + cipher_len) (drop cipher_len payload_buf) out1 in
    let sample = slice out2 header_len (header_len + 16) in
    write_at 0 (apply_header_protection P keys.hp_key (slice out2 0 header_len) sample) out2

pub encode :
    Primitives → PacketEncoder → PktType → List ℕ → List ℕ → Result ℕ × PacketEncoder × List ℕ
encode P e pkt_type plaintext out =
    let needed = encode_buf_len (length plaintext) in
    if ltb (length out) needed
    then (err (buffer_too_small needed (length out)), e, out)
    else let pkt_num = e.next_pkt_num in
      let e' = record e { next_pkt_num = add64 pkt_num 1 } in
      let header = make_header pkt_type e.session_id pkt_num in
      let out0 = write_at header_len plaintext (write_at 0 header out) in
      let nonce = packet_nonce e.keys.nonce_base pkt_num in
      let header_bytes = slice out0 0 header_len in
      let payload_buf = slice out0 header_len (header_len + length plaintext) in
      elim (encrypt_in_place P e.keys.cipher_suite e.keys.enc_key nonce header_bytes payload_buf) [
        | err failure ↦ (err failure, e', out0)
        | ok sealed ↦ (ok needed, e', seal_packet P e.keys (length plaintext) sealed out0)
      ]
