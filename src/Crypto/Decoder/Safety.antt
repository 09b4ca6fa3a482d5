-- ===== src/Crypto/Decoder/Safety.antt =====
-- What src/crypto/decoder.rs lets an attacker do: nothing that the receiver remembers.
use mathlib.Core.Path.{ap₂, subst}
use mathlib.Core.List.{append_assoc, append-nil}
use seam.Prelude.{
  ℕ, ◌-◌, ◌≤◌, List, [], ◌++◌, some, ◌≡◌, refl, sym, ap, ◌∙◌, arith, ltb, Bool-cases, inl, inr,
  length, get_or, take, drop, length-take, length-drop, length-append, take-append-drop,
}
use seam.Prelude.Bytes.{to_le, from_le, slice}
use seam.Prelude.Xor.{xor_bytes}
use seam.Error.{SeamError, Result, ok, err}
use seam.Prelude.Splice.{
  write_at, write_at-front, write_at-middle, slice-front, slice-middle, drop-front, take-front, cut,
}
use seam.Packet.{PktType, try_from, header_len, tag_len, min_packet_len, max_packet_len}
use seam.Crypto.Replay.{check, commit}
use seam.Crypto.Replay.Effect.{IsValid}
use seam.Crypto.Replay.History.{check-commit}
use seam.Crypto.Cipher.{Primitives, CipherSuite, decrypt_in_place}
use seam.Crypto.Cipher.Laws.{decrypt_in_place-ok}
use seam.Crypto.Keys.{apply_header_protection}
use seam.Crypto.Keys.RoundTrip.{length-apply_header_protection}
use seam.Crypto.Encoder.{packet_nonce}
use seam.Crypto.Decoder.{PacketDecoder, Decoded, open_payload, open_packet, decode}

-- What the documentation of a cipher says of the length of what it opens: it is without the tag.
pub record DropsTag (P : Primitives) : Type 0 where
  pub length-decrypt :
      (suite : CipherSuite) (key nonce aad c m : List ℕ)
      → P.decrypt suite key nonce aad c ≡ some m
      → length m ≡ length c - 16

-- The header of the packet `buf` without its protection, for which the mask is drawn from the first
-- 16 bytes of the payload.
abbrev clear_header : Primitives → PacketDecoder → List ℕ → List ℕ
clear_header P d buf = apply_header_protection P d.keys.hp_key (take 32 buf) (slice buf 32 48)

-- The packet `buf` has a payload and room for the tag, its header names the type `t` and the number
-- `n`, which is fresh to the window, and the cipher opens all that follows its header to `plain`,
-- under the nonce of `n` and with the header as associated data.
pub record Authentic (P : Primitives) (d : PacketDecoder) (buf : List ℕ) (t : PktType) (n : ℕ)
    (plain : List ℕ) : Type 0 where
  pub whole : 48 ≤ length buf
  pub kind : try_from (get_or (clear_header P d buf ++ drop 32 buf) 1 0) ≡ ok t
  pub number : n ≡ from_le (slice (clear_header P d buf ++ drop 32 buf) 16 24)
  pub fresh : check d.replay n ≡ ok tt
  pub committed : (commit d.replay n).0 ≡ ok tt
  pub nonce_whole : length (xor_bytes d.keys.nonce_base (to_le 8 n)) ≡ 12
  pub authentic :
      P.decrypt d.keys.cipher_suite d.keys.enc_key
        (xor_bytes d.keys.nonce_base (to_le 8 n))
        (clear_header P d buf)
        (drop 32 buf)
      ≡ some plain

-- What `decode` makes of `buf`: refused, with the decoder as it was, or accepted, with the number
-- committed.
pub data Outcome (P : Primitives) (d : PacketDecoder) (buf : List ℕ)
    : Result Decoded × PacketDecoder × List ℕ → Type 0 where
  refused : (e : SeamError) (left : List ℕ) → Outcome P d buf (err e, d, left)
  accepted :
      (t : PktType) (n : ℕ) (plain left : List ℕ)
      → Authentic P d buf t n plain
      → Outcome P d buf (ok (t, n, plain), record d { replay = (commit d.replay n).1 }, left)

module _ (P : Primitives) (law : DropsTag P) (d : PacketDecoder) (v : IsValid d.replay)
    (buf : List ℕ) (whole : 48 ≤ length buf) where
  header : List ℕ
  header = clear_header P d buf

  clear : List ℕ
  clear = header ++ drop 32 buf

  length-header : length header ≡ 32
  unfolding header
  length-header = omega (
    arith,
    length-apply_header_protection P d.keys.hp_key (take 32 buf) (slice buf 32 48),
    length-take 32 buf,
  )

  length-clear : length clear ≡ length buf
  unfolding clear
  length-clear =
      omega (arith, length-append header (drop 32 buf), length-header, length-drop 32 buf)

  clear_front : slice clear 0 header_len ≡ header
  unfolding clear
  clear_front = slice-front header (drop 32 buf) 32 length-header

  clear_rest : drop header_len clear ≡ drop 32 buf
  unfolding clear
  clear_rest = drop-front header (drop 32 buf) 32 length-header

  unprotected : write_at 0 header buf ≡ clear
  unfolding clear
  unprotected =
      ap (write_at 0 header) (sym (take-append-drop 32 buf))
      ∙ write_at-front header (take 32 buf) (drop 32 buf)
          (omega (arith, length-header, length-take 32 buf))

  abbrev returned : List ℕ → List ℕ → List ℕ
  returned m left =
      slice (write_at header_len (take (length left - tag_len - header_len) m) left) header_len
        (length left - tag_len)

  -- Nothing of what the cipher has opened is lost on the way through the buffer.
  plain_lem : (m : List ℕ) → length m ≡ length buf - 48 → returned m clear ≡ m
  unfolding clear
  plain_lem m h =
      let (mid, tail, parts, size, more) =
        cut (length buf - 48) (drop 32 buf) (omega (arith, length-drop 32 buf)) in
      ap (returned m) (ap (◌++◌ header) (sym parts) ∙ sym (append_assoc header mid tail))
      ∙ through mid tail size (
          omega (
            arith,
            length-append (header ++ mid) tail,
            length-append header mid,
            length-header,
            more,
            size,
            length-drop 32 buf,
          ))
    where
      full : (k : ℕ) → length m ≡ k → take k m ≡ m
      full k e = ap (take k) (sym (append-nil m)) ∙ take-front m [] k e

      through :
          (mid tail : List ℕ)
          → length mid ≡ length buf - 48
          → length (header ++ mid ++ tail) ≡ length buf
          → returned m (header ++ mid ++ tail) ≡ m
      through mid tail size total =
          ap₂ (λ x stop. slice (write_at 32 x (header ++ mid ++ tail)) 32 stop)
            (full (length (header ++ mid ++ tail) - 16 - 32) (omega (arith, total, h)))
            (omega (arith, total))
          ∙ ap (λ l. slice l 32 (length buf - 16))
              (write_at-middle header m mid tail 32 length-header (h ∙ sym size))
          ∙ slice-middle header m tail 32 (length buf - 16) length-header (omega (arith, h, whole))

  open_payload-Outcome :
      (t : PktType) (n : ℕ)
      → try_from (get_or clear 1 0) ≡ ok t
      → n ≡ from_le (slice clear 16 24)
      → check d.replay n ≡ ok tt
      → Outcome P d buf (open_payload P d t n clear)
  unfolding open_payload packet_nonce clear header
  open_payload-Outcome t n kind number h = by_cipher _ refl
    where
      done : (commit d.replay n).0 ≡ ok tt
      done = sym (check-commit d.replay n v).0 ∙ h

      taken :
          (m : List ℕ)
          → Authentic P d buf t n m
          → Outcome P d buf (
            ok (t, n, returned m clear),
            record d { replay = (commit d.replay n).1 },
            write_at header_len (take (length clear - tag_len - header_len) m) clear,
          )
      taken m a =
          subst
            (λ x. Outcome P d buf (
              ok (t, n, x),
              record d { replay = (commit d.replay n).1 },
              write_at header_len (take (length clear - tag_len - header_len) m) clear,
            ))
            (sym (
              plain_lem m
                (law.length-decrypt _ _ _ _ _ _ a.authentic ∙ omega (arith, length-drop 32 buf))))
            (accepted t n m _ a)

      by_cipher :
          (r : Result (List ℕ))
          → decrypt_in_place P d.keys.cipher_suite d.keys.enc_key
              (packet_nonce d.keys.nonce_base n)
              (slice clear 0 header_len)
              (drop header_len clear)
            ≡ r
          → Outcome P d buf (elim r as (λ x. Result Decoded × PacketDecoder × List ℕ) [
            | err e ↦ (err e, d, clear)
            | ok plain ↦
                elim ((commit d.replay n).0) as (λ x. Result Decoded × PacketDecoder × List ℕ) [
                  | err e ↦ (err e, record d { replay = (commit d.replay n).1 }, clear)
                  | ok _ ↦ (
                    ok (t, n, returned plain clear),
                    record d { replay = (commit d.replay n).1 },
                    write_at header_len (take (length clear - tag_len - header_len) plain) clear,
                  )
                ]
          ])
      by_cipher (err e) q = refused e clear
      by_cipher (ok plain) q =
          let (twelve, opened) =
            decrypt_in_place-ok P d.keys.cipher_suite d.keys.enc_key
              (packet_nonce d.keys.nonce_base n) (clear_header P d buf) (drop 32 buf) plain
              (sym (
                  ap₂
                    (decrypt_in_place P d.keys.cipher_suite d.keys.enc_key
                      (packet_nonce d.keys.nonce_base n))
                    clear_front clear_rest)
                ∙ q) in
          rw done (
            taken plain (record {
              whole = whole;
              kind = kind;
              number = number;
              fresh = h;
              committed = done;
              nonce_whole = twelve;
              authentic = opened;
            }))

  open_packet-Outcome : Outcome P d buf (open_packet P d clear)
  unfolding open_packet
  open_packet-Outcome = by_type _ refl
    where
      by_check :
          (t : PktType) (r : Result (Unit {0}))
          → try_from (get_or clear 1 0) ≡ ok t
          → check d.replay (from_le (slice clear 16 24)) ≡ r
          → Outcome P d buf (elim r as (λ x. Result Decoded × PacketDecoder × List ℕ) [
            | err e ↦ (err e, d, clear)
            | ok _ ↦ open_payload P d t (from_le (slice clear 16 24)) clear
          ])
      by_check t (err e) k q = refused e clear
      by_check t (ok tt) k q = open_payload-Outcome t (from_le (slice clear 16 24)) k refl q

      by_type :
          (r : Result PktType)
          → try_from (get_or clear 1 0) ≡ r
          → Outcome P d buf (elim r as (λ x. Result Decoded × PacketDecoder × List ℕ) [
            | err e ↦ (err e, d, clear)
            | ok t ↦
                elim (check d.replay (from_le (slice clear 16 24)))
                  as (λ x. Result Decoded × PacketDecoder × List ℕ) [
                    | err e ↦ (err e, d, clear)
                    | ok _ ↦ open_payload P d t (from_le (slice clear 16 24)) clear
                  ]
          ])
      by_type (err e) k = refused e clear
      by_type (ok t) k = by_check t _ k refl

-- With a valid replay window and a cipher whose output is shorter than its input by the tag,
-- whatever bytes arrive, `decode` either refuses them and leaves the decoder, its replay window
-- included, as it was, or it answers with the type and the number in the header of these bytes,
-- without its protection, and with the plaintext that the cipher opens from the bytes after the
-- header, under the nonce base exclusive-or that number and with that header as associated data;
-- the number was then fresh, and the new window is that with it committed.
pub decode-Outcome :
    (P : Primitives) (d : PacketDecoder) (buf : List ℕ)
    → DropsTag P
    → IsValid d.replay
    → Outcome P d buf (decode P d buf)
unfolding decode header
decode-Outcome P d buf law v = elim (Bool-cases (ltb max_packet_len (length buf))) [
  | inl large ↦ rw large (refused _ buf)
  | inr fits ↦ rw fits (elim (Bool-cases (ltb (length buf) min_packet_len)) [
    | inl small ↦ rw small (refused _ buf)
    | inr enough ↦ rw enough (unprotect (ground arith))
  ])
]
  where
    unprotect :
        48 ≤ length buf → Outcome P d buf (open_packet P d (write_at 0 (clear_header P d buf) buf))
    unprotect whole =
        subst (λ l. Outcome P d buf (open_packet P d l)) (sym (unprotected P law d v buf whole))
          (open_packet-Outcome P law d v buf whole)
