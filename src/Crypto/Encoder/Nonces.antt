-- ===== src/Crypto/Encoder/Nonces.antt =====
-- The nonces that src/crypto/encoder.rs hands to the cipher: under one key, no two are the same.
use mathlib.Core.Path.{subst}
use seam.Prelude.{
  Option-cases, none, some, drop, ◌++◌, ℕ, suc, ◌+◌, ◌≤◌, ◌<◌, List, [], ◌∷◌, true, false, ◌≡◌, ◌≢◌,
  refl, sym, ap, ◌∙◌, arith, ltb, if◌then◌else◌, Bool-cases, inl, inr, length,
}
use seam.Prelude.Bytes.{u64_mod, to_le, from_le, length-to_le, from_le-to_le}
use seam.Prelude.Words.{add64}
use seam.Prelude.Xor.{xor_bytes-inj}
use seam.Error.{Result, ok, err, auth_failed, buffer_too_small}
use seam.Packet.{PktType, encode_buf_len}
use seam.Crypto.Cipher.{Primitives, IsLawful}
use seam.Crypto.Encoder.{PacketEncoder, packet_nonce, encode}
use seam.Crypto.Encoder.Shape.{
  next_nonce, next_header, packet_of, counted, encode_lem, encode-failed,
}

-- Packet numbers that differ give nonces that differ.
pub packet_nonce-inj :
    (nonce_base : List ℕ) (m n : ℕ)
    → length nonce_base ≡ 12
    → m < u64_mod
    → n < u64_mod
    → packet_nonce nonce_base m ≡ packet_nonce nonce_base n
    → m ≡ n
unfolding packet_nonce
packet_nonce-inj nonce_base m n h hm hn e =
    sym (from_le-to_le 8 m hm)
    ∙ ap from_le (
        xor_bytes-inj nonce_base (to_le 8 m) (to_le 8 n) (length-to_le 8 m ∙ sym (length-to_le 8 n))
          (omega (arith, length-to_le 8 m)) e)
    ∙ from_le-to_le 8 n hn

-- One call of `encode`: its type, plaintext and buffer.
abbrev pub Call : Type 0
Call = PktType × List ℕ × List ℕ

-- The nonces that a sequence of calls is to use. Only a buffer that is too small keeps a call from
-- the cipher.
abbrev nonces : Primitives → PacketEncoder → List Call → List (List ℕ)
nonces P e [] = []
nonces P e ((t, plain, out) ∷ calls) =
    let rest = nonces P (encode P e t plain out).1 calls in
    if ltb (length out) (encode_buf_len (length plain)) then rest else next_nonce e ∷ rest

counter_refused :
    (P : Primitives) (e : PacketEncoder) (t : PktType) (plain out : List ℕ)
    → ltb (length out) (encode_buf_len (length plain)) ≡ true
    → (encode P e t plain out).1 ≡ e
unfolding encode
counter_refused P e t plain out h = rw h refl

-- The number is taken also where the cipher fails.
counter_taken :
    (P : Primitives) (e : PacketEncoder) (t : PktType) (plain out : List ℕ)
    → ltb (length out) (encode_buf_len (length plain)) ≡ false
    → (encode P e t plain out).1 ≡ counted e
unfolding encode
counter_taken P e t plain out h = rw h (either _ _ _)
  where
    either :
        (r : Result (List ℕ)) (bad : List ℕ) (good : List ℕ → List ℕ)
        → (elim r as (λ x. Result ℕ × PacketEncoder × List ℕ) [
          | err failure ↦ (err failure, counted e, bad)
          | ok sealed ↦ (ok (encode_buf_len (length plain)), counted e, good sealed)
        ]).1
          ≡ counted e
    either (err failure) bad good = refl
    either (ok sealed) bad good = refl

-- Every nonce of the list belongs to a number of at least `n`, under the key's `nonce_base`.
From : List ℕ → ℕ → List (List ℕ) → Type 0
From nonce_base n [] = Unit
From nonce_base n (x ∷ xs) =
    ((m : ℕ) × (n ≤ m) × (m < u64_mod) × (x ≡ packet_nonce nonce_base m)) × From nonce_base n xs

abbrev pub Absent : List ℕ → List (List ℕ) → Type 0
Absent a [] = Unit
Absent a (x ∷ xs) = (a ≢ x) × Absent a xs

abbrev pub Distinct : List (List ℕ) → Type 0
Distinct [] = Unit
Distinct (x ∷ xs) = Absent x xs × Distinct xs

From-mono :
    (nonce_base : List ℕ) (n n' : ℕ) (xs : List (List ℕ))
    → n ≤ n'
    → From nonce_base n' xs
    → From nonce_base n xs
unfolding From
From-mono nonce_base n n' [] h f = tt
From-mono nonce_base n n' (x ∷ xs) h ((m, a, b, c), f) =
    ((m, omega arith, b, c), From-mono nonce_base n n' xs h f)

From-Absent :
    (nonce_base : List ℕ) (n : ℕ) (xs : List (List ℕ))
    → length nonce_base ≡ 12
    → n < u64_mod
    → From nonce_base (suc n) xs
    → Absent (packet_nonce nonce_base n) xs
unfolding From
From-Absent nonce_base n [] nb h f = tt
From-Absent nonce_base n (x ∷ xs) nb h ((m, a, b, c), f) = (
  (λ e. lt-irrefl n m a (packet_nonce-inj nonce_base n m nb h b (e ∙ c))),
  From-Absent nonce_base n xs nb h f,
)
  where
    lt-irrefl : (n m : ℕ) → suc n ≤ m → n ≢ m
    lt-irrefl n m a e = omega arith

add64_one : (n : ℕ) → n + 1 < u64_mod → add64 n 1 ≡ suc n
add64_one n h = omega arith

nonces_lem :
    (P : Primitives) (e : PacketEncoder) (calls : List Call)
    → length e.keys.nonce_base ≡ 12
    → e.next_pkt_num + length calls < u64_mod
    → From e.keys.nonce_base e.next_pkt_num (nonces P e calls) × Distinct (nonces P e calls)
unfolding From
nonces_lem P e [] nb h = (tt, tt)
nonces_lem P e ((t, plain, out) ∷ calls) nb h =
    elim (Bool-cases (ltb (length out) (encode_buf_len (length plain)))) [
      | inl small ↦
          rw small
            (rw (counter_refused P e t plain out small) (nonces_lem P e calls nb (omega arith)))
      | inr taken ↦ rw taken (
          rw (counter_taken P e t plain out taken) (
            with_next (
              nonces_lem P (counted e) calls nb
                (rw (add64_one e.next_pkt_num (omega arith)) (omega arith)))))
    ]
  where
    with_next :
        From e.keys.nonce_base (add64 e.next_pkt_num 1) (nonces P (counted e) calls)
          × Distinct (nonces P (counted e) calls)
        → From e.keys.nonce_base e.next_pkt_num (next_nonce e ∷ nonces P (counted e) calls)
          × Distinct (next_nonce e ∷ nonces P (counted e) calls)
    with_next (f, d) =
        let f' : From e.keys.nonce_base (suc e.next_pkt_num) (nonces P (counted e) calls) =
          subst (λ k. From e.keys.nonce_base k (nonces P (counted e) calls))
            (add64_one e.next_pkt_num (omega arith)) f in
        (
          (
            (e.next_pkt_num, omega arith, omega arith, refl),
            From-mono e.keys.nonce_base e.next_pkt_num (suc e.next_pkt_num)
                (nonces P (counted e) calls) (omega arith) f',
          ),
          (
            From-Absent e.keys.nonce_base e.next_pkt_num (nonces P (counted e) calls) nb
                (omega arith) f',
            d,
          ),
        )

-- A sequence of calls, with the nonces under which the cipher was asked: not at all where the buffer is
-- too small, and otherwise once, under `nonce`, which decides by what the cipher answers there, to the
-- packet's header and the plaintext, what the call answers and writes.
pub data Seals (P : Primitives) : PacketEncoder → List Call → List (List ℕ) → Type 0 where
  finished : (e : PacketEncoder) → Seals P e [] []
  refused :
      (e : PacketEncoder) (t : PktType) (plain out : List ℕ) (calls : List Call)
      (ns : List (List ℕ))
      → length out < encode_buf_len (length plain)
      → encode P e t plain out
        ≡ (err (buffer_too_small (encode_buf_len (length plain)) (length out)), e, out)
      → Seals P e calls ns
      → Seals P e ((t, plain, out) ∷ calls) ns
  sealed :
      (e : PacketEncoder) (t : PktType) (plain out : List ℕ) (calls : List Call)
      (ns : List (List ℕ)) (nonce payload : List ℕ)
      → P.encrypt e.keys.cipher_suite e.keys.enc_key nonce (next_header e t) plain ≡ some payload
      → encode P e t plain out ≡ (
        ok (encode_buf_len (length plain)),
        counted e,
        packet_of P e.keys (next_header e t) payload ++ drop (encode_buf_len (length plain)) out,
      )
      → Seals P (counted e) calls ns
      → Seals P e ((t, plain, out) ∷ calls) (nonce ∷ ns)
  failed :
      (e : PacketEncoder) (t : PktType) (plain out : List ℕ) (calls : List Call)
      (ns : List (List ℕ)) (nonce : List ℕ)
      → P.encrypt e.keys.cipher_suite e.keys.enc_key nonce (next_header e t) plain ≡ none
      → (encode P e t plain out).0 ≡ err auth_failed
      → (encode P e t plain out).1 ≡ counted e
      → Seals P (counted e) calls ns
      → Seals P e ((t, plain, out) ∷ calls) (nonce ∷ ns)

encode-refused :
    (P : Primitives) (e : PacketEncoder) (t : PktType) (plain out : List ℕ)
    → ltb (length out) (encode_buf_len (length plain)) ≡ true
    → encode P e t plain out
      ≡ (err (buffer_too_small (encode_buf_len (length plain)) (length out)), e, out)
unfolding encode
encode-refused P e t plain out h = rw h refl

nonces-Seals :
    (P : Primitives) (law : IsLawful P) (e : PacketEncoder) (calls : List Call)
    → length e.keys.nonce_base ≡ 12
    → Seals P e calls (nonces P e calls)
nonces-Seals P law e [] nb = finished e
nonces-Seals P law e ((t, plain, out) ∷ calls) nb =
    elim (Bool-cases (ltb (length out) (encode_buf_len (length plain)))) [
      | inl small ↦ rw small (
          rw (counter_refused P e t plain out small) (
            refused e t plain out calls (nonces P e calls) (ground arith)
              (encode-refused P e t plain out small) (nonces-Seals P law e calls nb)))
      | inr taken ↦ rw taken (
          rw (counter_taken P e t plain out taken)
            (asked taken (nonces-Seals P law (counted e) calls nb)))
    ]
  where
    asked :
        ltb (length out) (encode_buf_len (length plain)) ≡ false
        → Seals P (counted e) calls (nonces P (counted e) calls)
        → Seals P e ((t, plain, out) ∷ calls) (next_nonce e ∷ nonces P (counted e) calls)
    asked taken later =
        elim (Option-cases
          (P.encrypt e.keys.cipher_suite e.keys.enc_key (next_nonce e) (next_header e t) plain)) [
            | inl nothing ↦
                let (answer, counter) = encode-failed P e t plain out (ground arith) nothing in
                failed e t plain out calls (nonces P (counted e) calls) (next_nonce e) nothing
                  answer counter later
            | inr (payload, en) ↦
                sealed e t plain out calls (nonces P (counted e) calls) (next_nonce e) payload en
                  (encode_lem P e t plain out payload law nb (ground arith) en) later
          ]

-- However `encode` is called, with a lawful cipher and a nonce base of 12 bytes and as long as the
-- packet numbers stay below 2^64, each call either is refused for its buffer, and then asks the
-- cipher nothing and changes nothing, or answers by what the cipher makes of the header and the
-- plaintext under a nonce, and no nonce is used in two of the calls, whether they succeed or fail.
pub nonces-Distinct :
    (P : Primitives) (e : PacketEncoder) (calls : List Call)
    → IsLawful P
    → length e.keys.nonce_base ≡ 12
    → e.next_pkt_num + length calls < u64_mod
    → (ns : List (List ℕ)) × Seals P e calls ns × Distinct ns
nonces-Distinct P e calls law nb h =
    (nonces P e calls, nonces-Seals P law e calls nb, (nonces_lem P e calls nb h).1)
