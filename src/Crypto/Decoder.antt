-- ===== src/Crypto/Decoder.antt =====
-- src/crypto/decoder.rs: plaintext from packets. The decoder and the buffer, which is unprotected
-- and decrypted in place, are part of the result.
pub mod Safety
pub mod RoundTrip
mod Tests
use seam.Prelude.{ℕ, ◌+◌, ◌-◌, List, ltb, if◌then◌else◌, length, take, drop, get_or}
use seam.Prelude.Bytes.{from_le, slice}
use seam.Prelude.Splice.{write_at}
use seam.Error.{Result, ok, err, buffer_too_small, packet_too_large}
use seam.Packet.{PktType, try_from, header_len, tag_len, min_packet_len, max_packet_len}
use seam.Crypto.Replay
use seam.Crypto.Replay.{ReplayWindow, check, commit}
use seam.Crypto.Cipher.{Primitives, decrypt_in_place}
use seam.Crypto.Keys.{PacketKeys, apply_header_protection}
use seam.Crypto.Encoder.{packet_nonce}

pub record PacketDecoder : Type 0 where
  pub keys : PacketKeys
  pub replay : ReplayWindow

pub new : PacketKeys → PacketDecoder
new keys = record { keys = keys; replay = Replay.new }

-- The packet type, the packet number and the plaintext.
abbrev pub Decoded : Type 0
Decoded = PktType × ℕ × List ℕ

-- From the payload's decryption on; `buf` holds the unprotected header.
pub open_payload :
    Primitives → PacketDecoder → PktType → ℕ → List ℕ → Result Decoded × PacketDecoder × List ℕ
open_payload P d pkt_type pkt_num buf =
    let nonce = packet_nonce d.keys.nonce_base pkt_num in
    let payload_end = length buf - tag_len in
    let header_bytes = slice buf 0 header_len in
    let ct_buf = drop header_len buf in
    elim (decrypt_in_place P d.keys.cipher_suite d.keys.enc_key nonce header_bytes ct_buf) [
      | err e ↦ (err e, d, buf)
      | ok plain ↦
          let (committed, replay') = commit d.replay pkt_num in
          let d' = record d { replay = replay' } in
          elim committed [
            | err e ↦ (err e, d', buf)
            | ok _ ↦
                let plaintext_len = payload_end - header_len in
                let buf' = write_at header_len (take plaintext_len plain) buf in
                (ok (pkt_type, pkt_num, slice buf' header_len payload_end), d', buf')
          ]
    ]

-- From the parsing of the header on.
pub open_packet : Primitives → PacketDecoder → List ℕ → Result Decoded × PacketDecoder × List ℕ
unfolding open_payload
open_packet P d buf = elim (try_from (get_or buf 1 0)) [
  | err e ↦ (err e, d, buf)
  | ok pkt_type ↦
      let pkt_num = from_le (slice buf 16 24) in
      elim (check d.replay pkt_num) [
        | err e ↦ (err e, d, buf)
        | ok _ ↦ open_payload P d pkt_type pkt_num buf
      ]
]

pub decode : Primitives → PacketDecoder → List ℕ → Result Decoded × PacketDecoder × List ℕ
unfolding open_packet
decode P d buf =
    if ltb max_packet_len (length buf)
    then (err (packet_too_large (length buf) max_packet_len), d, buf)
    else if ltb (length buf) min_packet_len
    then (err (buffer_too_small min_packet_len (length buf)), d, buf)
    else let sample = slice buf header_len (header_len + 16) in
      let header = apply_header_protection P d.keys.hp_key (slice buf 0 header_len) sample in
      open_packet P d (write_at 0 header buf)
