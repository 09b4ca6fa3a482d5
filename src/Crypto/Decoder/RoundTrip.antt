-- ===== src/Crypto/Decoder/RoundTrip.antt =====
-- src/crypto/decoder.rs undoes src/crypto/encoder.rs.
use mathlib.Core.Path.{ap₂}
use mathlib.Core.List.{append_assoc, append-nil}
use seam.Prelude.{
  ℕ, zero, suc, ◌+◌, ◌-◌, ◌≤◌, ◌<◌, List, [], ◌∷◌, ◌++◌, some, false, ◌≡◌, refl, sym, ap, ◌∙◌,
  arith, ltb, length, take, drop, get_or, replicate, length-append, length-take,
}
use seam.Prelude.Bytes.{u64_mod, to_le, from_le, slice, length-to_le, from_le-to_le}
use seam.Prelude.Splice.{
  write_at, write_at-front, slice-front, slice-middle, drop-front, take-front,
}
use seam.Error.{Result, ok, or_fail, auth_failed}
use seam.Packet.{
  PktType, to_u8, try_from, header_len, tag_len, min_packet_len, max_packet_len, encode_buf_len,
}
use seam.Packet.Codes.{try_from-to_u8}
use seam.Crypto.Replay.{ReplayWindow, check, commit}
use seam.Crypto.Replay.Effect.{IsValid}
use seam.Crypto.Replay.History.{check-commit}
use seam.Crypto.Cipher.{Primitives, IsLawful, decrypt_in_place}
use seam.Crypto.Cipher.Laws.{decrypt_in_place_lem}
use seam.Crypto.Keys.{apply_header_protection}
use seam.Crypto.Keys.RoundTrip.{apply_header_protection-involutive, length-apply_header_protection}
use seam.Crypto.Encoder.{PacketEncoder, make_header, packet_nonce, encode}
use seam.Crypto.Encoder.Shape.{
  packet_of, sample_of, next_header, next_nonce, length-make_header, length-packet_nonce,
  encode_lem,
}
use seam.Crypto.Decoder.{PacketDecoder, Decoded, open_payload, open_packet, decode}

packet_number :
    (t : PktType) (sid n : ℕ) (payload : List ℕ)
    → n < u64_mod
    → from_le (slice (make_header t sid n ++ payload) 16 24) ≡ n
packet_number t sid n payload h =
    ap from_le (
      ap (λ l. slice l 16 24)
        (append_assoc ((1 ∷ to_u8 t ∷ replicate 6 0) ++ to_le 8 sid ++ to_le 8 n) (replicate 8 0)
          payload)
      ∙ slice-middle ((1 ∷ to_u8 t ∷ replicate 6 0) ++ to_le 8 sid) (to_le 8 n)
          (replicate 8 0 ++ payload) 16 24
          (omega
            (arith, length-append (1 ∷ to_u8 t ∷ replicate 6 0) (to_le 8 sid), length-to_le 8 sid))
          (omega (arith, length-to_le 8 n)))
    ∙ from_le-to_le 8 n h

module _ (P : Primitives) (d : PacketDecoder) (t : PktType) (n : ℕ) where
  -- The buffer once the plaintext is written to it.
  abbrev revealed : List ℕ → List ℕ → List ℕ
  revealed plain buf = write_at header_len (take (length buf - tag_len - header_len) plain) buf

  open_payload-ok :
      (buf plain : List ℕ)
      → decrypt_in_place P d.keys.cipher_suite d.keys.enc_key
          (packet_nonce d.keys.nonce_base n)
          (slice buf 0 header_len)
          (drop header_len buf)
        ≡ ok plain
      → (commit d.replay n).0 ≡ ok tt
      → open_payload P d t n buf ≡ (
        ok (t, n, slice (revealed plain buf) header_len (length buf - tag_len)),
        record d { replay = (commit d.replay n).1 },
        revealed plain buf,
      )
  unfolding open_payload
  open_payload-ok buf plain h c = rw (h, open_payload) (rw c refl)

  open_packet-ok :
      (buf : List ℕ)
      → try_from (get_or buf 1 0) ≡ ok t
      → from_le (slice buf 16 24) ≡ n
      → check d.replay n ≡ ok tt
      → open_packet P d buf ≡ open_payload P d t n buf
  unfolding open_packet
  open_packet-ok buf h k c =
      read_number (ap (check d.replay) k ∙ c) ∙ ap (λ m. open_payload P d t m buf) k
    where
      read_number :
          check d.replay (from_le (slice buf 16 24)) ≡ ok tt
          → open_packet P d buf ≡ open_payload P d t (from_le (slice buf 16 24)) buf
      read_number c' = rw (h, open_packet) (rw c' refl)

-- A packet of the same keys, whose payload is the encryption of `plain`.
module _ (P : Primitives) (law : IsLawful P) (d : PacketDecoder) (t : PktType) (sid n : ℕ)
    (plain payload : List ℕ) (v : IsValid d.replay) (nb : length d.keys.nonce_base ≡ 12)
    (en : P.encrypt d.keys.cipher_suite d.keys.enc_key
        (packet_nonce d.keys.nonce_base n)
        (make_header t sid n)
        plain
      ≡ some payload)
    (fresh : check d.replay n ≡ ok tt) where
  size : length payload ≡ length plain + 16
  size = law.length-encrypt _ _ _ _ _ _ en

  abbrev pub Opens : Result Decoded × PacketDecoder × List ℕ → Type 0
  Opens r = (r.0 ≡ ok (t, n, plain)) × (r.1 ≡ record d { replay = (commit d.replay n).1 })

  deciphered :
      decrypt_in_place P d.keys.cipher_suite d.keys.enc_key
        (packet_nonce d.keys.nonce_base n)
        (slice (make_header t sid n ++ payload) 0 header_len)
        (drop header_len (make_header t sid n ++ payload))
      ≡ ok plain
  deciphered =
      ap₂ (decrypt_in_place P d.keys.cipher_suite d.keys.enc_key (packet_nonce d.keys.nonce_base n))
        (slice-front (make_header t sid n) payload header_len (length-make_header t sid n))
        (drop-front (make_header t sid n) payload header_len (length-make_header t sid n))
      ∙ decrypt_in_place_lem P _ _ _ _ payload (length-packet_nonce d.keys.nonce_base n ∙ nb)
      ∙ ap (λ o. or_fail o auth_failed) (law.decrypt-encrypt _ _ _ _ _ _ en)

  -- The length of the whole, less the tag's.
  payload_end : length (make_header t sid n ++ payload) - tag_len ≡ header_len + length plain
  payload_end =
      omega (arith, length-append (make_header t sid n) payload, length-make_header t sid n, size)

  abbrev decoded : List ℕ → Result Decoded
  decoded x = ok (t, n, x)

  plaintext_lem :
      (buf : List ℕ) (stop : ℕ)
      → stop ≡ header_len + length plain
      → header_len ≤ length buf
      → slice (write_at header_len (take (stop - header_len) plain) buf) header_len stop ≡ plain
  plaintext_lem buf stop h k =
      ap (λ x. slice (write_at header_len x buf) header_len stop)
        (ap (λ m. take m plain) {y = length plain} (omega arith)
          ∙ ap (take (length plain)) (sym (append-nil plain))
          ∙ take-front plain [] (length plain) refl)
      ∙ slice-middle (take header_len buf) plain (drop (header_len + length plain) buf) header_len
          stop (omega (arith, length-take header_len buf)) (sym h)

  open_payload_lem : Opens (open_payload P d t n (make_header t sid n ++ payload))
  open_payload_lem =
      rw
        (open_payload-ok P d t n (make_header t sid n ++ payload) plain deciphered
          (sym (check-commit d.replay n v).0 ∙ fresh))
        (
          ap decoded (
              plaintext_lem (make_header t sid n ++ payload) _ payload_end (
                omega (
                  arith,
                  length-append (make_header t sid n) payload,
                  length-make_header t sid n,
                ))),
          refl,
        )

  open_packet_lem : n < u64_mod → Opens (open_packet P d (make_header t sid n ++ payload))
  open_packet_lem h =
      rw
        (open_packet-ok P d t n (make_header t sid n ++ payload) (try_from-to_u8 t)
          (packet_number t sid n payload h) fresh)
        open_payload_lem

  pub decode_lem :
      n < u64_mod
      → length plain + 48 ≤ max_packet_len
      → Opens (decode P d (packet_of P d.keys (make_header t sid n) payload))
  unfolding decode
  decode_lem h k =
      rw (within (length whole) (omega (arith, all)))
        (rw (enough (length whole) (omega (arith, all))) (rw unprotected (open_packet_lem h)))
    where
      whole : List ℕ
      whole = packet_of P d.keys (make_header t sid n) payload

      hidden : List ℕ
      hidden = apply_header_protection P d.keys.hp_key (make_header t sid n) (sample_of payload)

      hidden_size : length hidden ≡ 32
      hidden_size = length-apply_header_protection P d.keys.hp_key _ _ ∙ length-make_header t sid n

      all : length whole ≡ length plain + 48
      all = omega (arith, length-append hidden payload, hidden_size, size)

      within : (m : ℕ) → m ≤ max_packet_len → ltb max_packet_len m ≡ false
      within m q = ground arith

      enough : (m : ℕ) → min_packet_len ≤ m → ltb m min_packet_len ≡ false
      enough m q = ground arith

      unprotected :
          write_at 0
            (apply_header_protection P d.keys.hp_key
              (slice whole 0 header_len)
              (slice whole header_len (header_len + 16)))
            whole
          ≡ make_header t sid n ++ payload
      unprotected =
          ap₂ (λ hd sm. write_at 0 (apply_header_protection P d.keys.hp_key hd sm) whole)
            (slice-front hidden payload header_len hidden_size)
            (ap (take 16) (drop-front hidden payload header_len hidden_size))
          ∙ ap (λ hd. write_at 0 hd whole)
              (apply_header_protection-involutive P d.keys.hp_key (make_header t sid n)
                (sample_of payload))
          ∙ write_at-front (make_header t sid n) hidden payload
              (length-make_header t sid n ∙ sym hidden_size)

pub drop_all : (xs : List ℕ) (n : ℕ) → length xs ≤ n → drop n xs ≡ []
drop_all [] zero h = refl
drop_all [] (suc n) h = refl
drop_all (x ∷ xs) zero h = absurd (omega arith)
drop_all (x ∷ xs) (suc n) h = drop_all xs n (omega arith)

-- The receiver that holds the sender's keys, with the replay window `w`.
abbrev pub receiver : PacketEncoder → ReplayWindow → PacketDecoder
receiver e w = record { keys = e.keys; replay = w }

pub written :
    (P : Primitives) (e : PacketEncoder) (t : PktType) (plain out payload : List ℕ)
    → IsLawful P
    → length e.keys.nonce_base ≡ 12
    → length out ≡ encode_buf_len (length plain)
    → P.encrypt e.keys.cipher_suite e.keys.enc_key (next_nonce e) (next_header e t) plain
      ≡ some payload
    → ((encode P e t plain out).0 ≡ ok (encode_buf_len (length plain)))
      × ((encode P e t plain out).2 ≡ packet_of P e.keys (next_header e t) payload)
written P e t plain out payload law nb exact en =
    rw (encode_lem P e t plain out payload law nb (omega arith) en) (
      refl,
      ap (◌++◌ (packet_of P e.keys (next_header e t) payload))
            (drop_all out (encode_buf_len (length plain)) (omega arith))
          ∙ append-nil (packet_of P e.keys (next_header e t) payload),
    )

-- What `encode` writes to a buffer of the packet's length, a decoder with the same keys to which the
-- packet's number is fresh decodes to the packet's type, number and plaintext, and it commits the
-- number. This holds for the shortest packet, without plaintext, and up to the largest packet, where
-- the cipher takes the plaintext.
pub decode-encode :
    (P : Primitives) (e : PacketEncoder) (w : ReplayWindow) (t : PktType)
    (plain out payload : List ℕ)
    → IsLawful P
    → length e.keys.nonce_base ≡ 12
    → e.next_pkt_num < u64_mod
    → IsValid w
    → check w e.next_pkt_num ≡ ok tt
    → length out ≡ encode_buf_len (length plain)
    → length out ≤ max_packet_len
    → P.encrypt e.keys.cipher_suite e.keys.enc_key (next_nonce e) (next_header e t) plain
      ≡ some payload
    → ((encode P e t plain out).0 ≡ ok (encode_buf_len (length plain)))
      × ((decode P (receiver e w) (encode P e t plain out).2).0 ≡ ok (t, e.next_pkt_num, plain))
      × ((decode P (receiver e w) (encode P e t plain out).2).1
          ≡ receiver e (commit w e.next_pkt_num).1)
decode-encode P e w t plain out payload law nb few v fresh exact small en =
    let (wrote, buffer) = written P e t plain out payload law nb exact en in
    let (typed, kept) =
      decode_lem P law (receiver e w) t e.session_id e.next_pkt_num plain payload v nb en fresh few
        (omega arith) in
    (wrote, rw buffer typed, rw buffer kept)
