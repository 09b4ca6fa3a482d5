-- ===== src/Crypto/Encoder/Shape.antt =====
-- What src/crypto/encoder.rs writes: a protected header, the cipher's output, and nothing else.
use mathlib.Core.Path.{ap₂, subst}
use mathlib.Core.List.{append_assoc}
use seam.Prelude.{
  ℕ, ◌+◌, ◌≤◌, List, ◌∷◌, ◌++◌, none, some, false, ◌≡◌, refl, sym, ap, ◌∙◌, arith, ltb, length,
  take, drop, replicate, length-append, take-append_le, length-take, length-drop, take-append-drop,
}
use seam.Prelude.Bytes.{to_le, slice, length-to_le}
use seam.Prelude.Splice.{
  write_at, write_at-front, write_at-middle, slice-front, slice-middle, drop-front, cut,
}
use seam.Prelude.Xor.{length-xor_bytes}
use seam.Prelude.Words.{add64}
use seam.Error.{Result, ok, err, auth_failed}
use seam.Packet.{PktType, to_u8, header_len, encode_buf_len}
use seam.Crypto.Cipher.{Primitives, IsLawful, encrypt_in_place}
use seam.Crypto.Cipher.Laws.{encrypt_in_place_lem, encrypt_in_place-none}
use seam.Crypto.Keys.{PacketKeys, apply_header_protection}
use seam.Crypto.Keys.RoundTrip.{length-apply_header_protection}
use seam.Crypto.Encoder.{PacketEncoder, make_header, packet_nonce, seal_packet, encode}

pub length-make_header : (t : PktType) (sid n : ℕ) → length (make_header t sid n) ≡ 32
length-make_header t sid n = omega (
  arith,
  length-append ((1 ∷ to_u8 t ∷ replicate 6 0) ++ to_le 8 sid ++ to_le 8 n) (replicate 8 0),
  length-append ((1 ∷ to_u8 t ∷ replicate 6 0) ++ to_le 8 sid) (to_le 8 n),
  length-append (1 ∷ to_u8 t ∷ replicate 6 0) (to_le 8 sid),
  length-to_le 8 sid,
  length-to_le 8 n,
)

-- The first bytes of what the cipher made, from which the header's mask is drawn.
abbrev pub sample_of : List ℕ → List ℕ
sample_of payload = slice payload 0 16

-- A packet: `payload` is the ciphertext with its tag.
abbrev pub packet_of : Primitives → PacketKeys → List ℕ → List ℕ → List ℕ
packet_of P keys header payload =
    apply_header_protection P keys.hp_key header (sample_of payload) ++ payload

module _ (P : Primitives) (keys : PacketKeys) where
  protect : List ℕ → List ℕ
  protect out =
      write_at 0
        (apply_header_protection P keys.hp_key (slice out 0 header_len)
          (slice out header_len (header_len + 16)))
        out

  protect_lem :
      (header payload tail : List ℕ)
      → length header ≡ 32
      → 16 ≤ length payload
      → protect (header ++ payload ++ tail) ≡ packet_of P keys header payload ++ tail
  unfolding protect
  protect_lem header payload tail h k =
      ap₂
        (λ hd sm.
          write_at 0 (apply_header_protection P keys.hp_key hd sm) (header ++ payload ++ tail))
        (ap (λ l. slice l 0 header_len) (append_assoc header payload tail)
          ∙ slice-front header (payload ++ tail) header_len h)
        (ap (λ l. slice l header_len (header_len + 16)) (append_assoc header payload tail)
          ∙ ap (take 16) (drop-front header (payload ++ tail) header_len h)
          ∙ take-append_le 16 payload tail k)
      ∙ ap (write_at 0 (apply_header_protection P keys.hp_key header (sample_of payload)))
          (append_assoc header payload tail)
      ∙ write_at-front _ header (payload ++ tail)
          (length-apply_header_protection P keys.hp_key header _)
      ∙ sym (append_assoc _ payload tail)

  -- The cipher's output in two pieces, where the plaintext and room for the tag were.
  pub seal_packet_lem :
      (header plain payload space tail : List ℕ)
      → length header ≡ 32
      → length payload ≡ length plain + 16
      → length space ≡ 16
      → seal_packet P keys (length plain) payload (header ++ plain ++ (space ++ tail))
        ≡ packet_of P keys header payload ++ tail
  unfolding protect
  seal_packet_lem header plain payload space tail h k r =
      ap protect (
        ap (write_at (header_len + length plain) p2) (
          write_at-middle header p1 plain (space ++ tail) header_len h front
          ∙ sym (append_assoc (header ++ p1) space tail))
        ∙ write_at-middle (header ++ p1) p2 space tail (header_len + length plain)
            (omega (arith, length-append header p1, front, h)) (omega (arith, back, r))
        ∙ ap (λ l. l ++ tail)
            (append_assoc header p1 p2
              ∙ ap (◌++◌ header) (take-append-drop (length plain) payload)))
      ∙ protect_lem header payload tail h (omega arith)
    where
      p1 : List ℕ
      p1 = take (length plain) payload

      p2 : List ℕ
      p2 = drop (length plain) payload

      front : length p1 ≡ length plain
      front = omega (arith, length-take (length plain) payload)

      back : length p2 ≡ 16
      back = omega (arith, length-drop (length plain) payload)

pub length-packet_nonce :
    (nonce_base : List ℕ) (n : ℕ) → length (packet_nonce nonce_base n) ≡ length nonce_base
unfolding packet_nonce
length-packet_nonce nonce_base n = length-xor_bytes nonce_base _

-- The header, the plaintext and the nonce of the next packet of `e`.
abbrev pub next_header : PacketEncoder → PktType → List ℕ
next_header e t = make_header t e.session_id e.next_pkt_num

abbrev pub next_nonce : PacketEncoder → List ℕ
next_nonce e = packet_nonce e.keys.nonce_base e.next_pkt_num

abbrev pub counted : PacketEncoder → PacketEncoder
counted e = record e { next_pkt_num = add64 e.next_pkt_num 1 }

long_enough : (a b : ℕ) → b ≤ a → ltb a b ≡ false
long_enough a b h = ground arith

module _ (P : Primitives) (e : PacketEncoder) (t : PktType) (plain : List ℕ) where
  -- The buffer in which the cipher finds the header and the plaintext.
  filled :
      (a b rest : List ℕ)
      → length a ≡ 32
      → length b ≡ length plain
      → write_at header_len plain (write_at 0 (next_header e t) (a ++ b ++ rest))
        ≡ next_header e t ++ plain ++ rest
  filled a b rest h k =
      ap (write_at header_len plain) (
        ap (write_at 0 (next_header e t)) (append_assoc a b rest)
        ∙ write_at-front (next_header e t) a (b ++ rest) (length-make_header t _ _ ∙ sym h)
        ∙ sym (append_assoc (next_header e t) b rest))
      ∙ write_at-middle (next_header e t) plain b rest header_len (length-make_header t _ _) (sym k)

  -- What `encode` does once it has filled the buffer.
  finish : List ℕ → Result ℕ × PacketEncoder × List ℕ
  finish out0 =
      elim (encrypt_in_place P e.keys.cipher_suite e.keys.enc_key (next_nonce e)
        (slice out0 0 header_len) (slice out0 header_len (header_len + length plain))) [
          | err failure ↦ (err failure, counted e, out0)
          | ok sealed ↦ (
            ok (encode_buf_len (length plain)),
            counted e,
            seal_packet P e.keys (length plain) sealed out0,
          )
        ]

  answer : List ℕ → Result ℕ × PacketEncoder × List ℕ
  answer out = (ok (encode_buf_len (length plain)), counted e, out)

  with_out : {x y : List ℕ} → x ≡ y → answer x ≡ answer y
  with_out p = λ i. answer (p i)

  encode_enough :
      (out : List ℕ)
      → encode_buf_len (length plain) ≤ length out
      → encode P e t plain out
        ≡ finish (write_at header_len plain (write_at 0 (next_header e t) out))
  unfolding finish encode
  encode_enough out h = rw (long_enough (length out) (encode_buf_len (length plain)) h) refl

  finish_lem :
      (payload space tail : List ℕ)
      → length (next_nonce e) ≡ 12
      → length payload ≡ length plain + 16
      → length space ≡ 16
      → P.encrypt e.keys.cipher_suite e.keys.enc_key (next_nonce e) (next_header e t) plain
        ≡ some payload
      → finish (next_header e t ++ plain ++ (space ++ tail)) ≡ (
        ok (encode_buf_len (length plain)),
        counted e,
        packet_of P e.keys (next_header e t) payload ++ tail,
      )
  unfolding finish answer
  finish_lem payload space tail nl pl sl en =
      ap
        (λ r. elim r [
          | err failure ↦ (err failure, counted e, next_header e t ++ plain ++ (space ++ tail))
          | ok sealed ↦ (
            ok (encode_buf_len (length plain)),
            counted e,
            seal_packet P e.keys (length plain) sealed
                (next_header e t ++ plain ++ (space ++ tail)),
          )
        ])
        (ap₂ (encrypt_in_place P e.keys.cipher_suite e.keys.enc_key (next_nonce e))
            (ap (λ l. slice l 0 header_len) (append_assoc (next_header e t) plain (space ++ tail))
              ∙ slice-front (next_header e t) (plain ++ (space ++ tail)) header_len
                  (length-make_header t _ _))
            (slice-middle (next_header e t) plain (space ++ tail) header_len
              (header_len + length plain) (length-make_header t _ _) refl)
          ∙ encrypt_in_place_lem P e.keys.cipher_suite e.keys.enc_key (next_nonce e)
              (next_header e t) plain payload nl en)
      ∙ with_out (
          seal_packet_lem P e.keys (next_header e t) plain payload space tail
            (length-make_header t _ _) pl sl)

  encode_parts :
      (a b space tail payload : List ℕ)
      → IsLawful P
      → length e.keys.nonce_base ≡ 12
      → length a ≡ 32
      → length b ≡ length plain
      → length space ≡ 16
      → P.encrypt e.keys.cipher_suite e.keys.enc_key (next_nonce e) (next_header e t) plain
        ≡ some payload
      → encode P e t plain (a ++ b ++ (space ++ tail))
        ≡ answer (
            packet_of P e.keys (next_header e t) payload
            ++ drop (encode_buf_len (length plain)) (a ++ b ++ (space ++ tail)))
  unfolding answer
  encode_parts a b space tail payload law nb la lb ls en =
      encode_enough (a ++ b ++ (space ++ tail)) (
        omega (
          arith,
          length-append (a ++ b) (space ++ tail),
          length-append a b,
          length-append space tail,
        ))
      ∙ ap finish (filled a b (space ++ tail) la lb)
      ∙ finish_lem payload space tail (length-packet_nonce e.keys.nonce_base _ ∙ nb)
          (law.length-encrypt _ _ _ _ _ _ en) ls en
      ∙ with_out (
          ap (◌++◌ (packet_of P e.keys (next_header e t) payload)) (
            sym (
              drop-front (a ++ b ++ space) tail (encode_buf_len (length plain))
                (omega (arith, length-append (a ++ b) space, length-append a b)))
            ∙ ap (drop (encode_buf_len (length plain))) (append_assoc (a ++ b) space tail)))

  -- With room for it in `out`, `encode` writes the packet, leaves what follows it, and takes the
  -- next packet number.
  pub encode_lem :
      (out payload : List ℕ)
      → IsLawful P
      → length e.keys.nonce_base ≡ 12
      → encode_buf_len (length plain) ≤ length out
      → P.encrypt e.keys.cipher_suite e.keys.enc_key (next_nonce e) (next_header e t) plain
        ≡ some payload
      → encode P e t plain out ≡ (
        ok (encode_buf_len (length plain)),
        counted e,
        packet_of P e.keys (next_header e t) payload ++ drop (encode_buf_len (length plain)) out,
      )
  unfolding answer
  encode_lem out payload law nb room en =
      let (a, r1, p1, la, l1) = cut 32 out (omega arith) in
      let (b, r2, p2, lb, l2) = cut (length plain) r1 (omega arith) in
      let (space, tail, p3, ls, l3) = cut 16 r2 (omega arith) in
      subst
        (λ o.
          encode P e t plain o
          ≡ answer (
              packet_of P e.keys (next_header e t) payload
              ++ drop (encode_buf_len (length plain)) o))
        (append_assoc a b (space ++ tail) ∙ ap (λ l. a ++ (b ++ l)) p3 ∙ ap (◌++◌ a) p2 ∙ p1)
        (encode_parts a b space tail payload law nb la lb ls en)

  -- Where the cipher fails, `encode` fails, once it has taken the packet number.
  pub encode-failed :
      (out : List ℕ)
      → encode_buf_len (length plain) ≤ length out
      → P.encrypt e.keys.cipher_suite e.keys.enc_key (next_nonce e) (next_header e t) plain ≡ none
      → ((encode P e t plain out).0 ≡ err auth_failed) × ((encode P e t plain out).1 ≡ counted e)
  unfolding finish
  encode-failed out room en =
      let (a, r1, p1, la, l1) = cut 32 out (omega arith) in
      let (b, rest, p2, lb, l2) = cut (length plain) r1 (omega arith) in
      subst
        (λ o. ((encode P e t plain o).0 ≡ err auth_failed) × ((encode P e t plain o).1 ≡ counted e))
        (append_assoc a b rest ∙ ap (◌++◌ a) p2 ∙ p1)
        (parts a b rest la lb
          (omega (arith, length-append (a ++ b) rest, length-append a b, l1, l2)))
    where
      Failed : Result ℕ × PacketEncoder × List ℕ → Type 0
      Failed r = (r.0 ≡ err auth_failed) × (r.1 ≡ counted e)

      failed :
          (buf : List ℕ)
          → encrypt_in_place P e.keys.cipher_suite e.keys.enc_key
              (next_nonce e)
              (slice buf 0 header_len)
              (slice buf header_len (header_len + length plain))
            ≡ err auth_failed
          → Failed (finish buf)
      failed buf h = rw (h, finish) (refl, refl)

      parts :
          (a b rest : List ℕ)
          → length a ≡ 32
          → length b ≡ length plain
          → encode_buf_len (length plain) ≤ length (a ++ b ++ rest)
          → Failed (encode P e t plain (a ++ b ++ rest))
      parts a b rest la lb enough =
          subst Failed
            (sym (encode_enough (a ++ b ++ rest) enough ∙ ap finish (filled a b rest la lb)))
            (failed (next_header e t ++ plain ++ rest) (
              ap₂ (encrypt_in_place P e.keys.cipher_suite e.keys.enc_key (next_nonce e))
                (ap (λ l. slice l 0 header_len) (append_assoc (next_header e t) plain rest)
                  ∙ slice-front (next_header e t) (plain ++ rest) header_len
                      (length-make_header t _ _))
                (slice-middle (next_header e t) plain rest header_len (header_len + length plain)
                  (length-make_header t _ _) refl)
              ∙ encrypt_in_place-none P e.keys.cipher_suite e.keys.enc_key (next_nonce e)
                  (next_header e t) plain en))
