-- ===== src/Crypto/Keys/RoundTrip.antt =====
-- Keys of src/crypto/keys.rs through their bytes, and the involution of src/crypto/header.rs.
use mathlib.Core.List.{append_assoc}
use seam.Prelude.{
  ℕ, List, ◌++◌, Option, some, true, ◌≡◌, ap, ◌∙◌, arith, ◌==◌, length, length-append, length-take,
}
use seam.Prelude.Bytes.{slice}
use seam.Prelude.Splice.{slice-front, slice-middle, slice-end}
use seam.Prelude.Xor.{xor_bytes-cancel, length-xor_bytes}
use seam.Crypto.Cipher.{Primitives, IsLawful, CipherSuite, chacha20_poly1305}
use seam.Crypto.Keys.{
  PacketKeys, to_bytes, from_bytes, derive_from_secret_with_cipher, apply_header_protection,
}

-- Protecting a header twice with one key and one sample gives the header back.
pub apply_header_protection-involutive :
    (P : Primitives) (hp_key header ciphertext : List ℕ)
    → apply_header_protection P hp_key
        (apply_header_protection P hp_key header ciphertext)
        ciphertext
      ≡ header
unfolding apply_header_protection
apply_header_protection-involutive P hp_key header ciphertext = xor_bytes-cancel header _

pub length-apply_header_protection :
    (P : Primitives) (hp_key header ciphertext : List ℕ)
    → length (apply_header_protection P hp_key header ciphertext) ≡ length header
unfolding apply_header_protection
length-apply_header_protection P hp_key header ciphertext = length-xor_bytes header _

-- The lengths that the array types of `PacketKeys` fix.
pub record IsSized (k : PacketKeys) : Type 0 where
  pub enc : length k.enc_key ≡ 32
  pub hp : length k.hp_key ≡ 32
  pub base : length k.nonce_base ≡ 12

pub derive_from_secret-IsSized :
    (P : Primitives) (secret : List ℕ) (suite : CipherSuite)
    → IsLawful P
    → IsSized (derive_from_secret_with_cipher P secret suite)
unfolding derive_from_secret_with_cipher
derive_from_secret-IsSized P secret suite law = record {
  enc = law.length-derive_key "apex/payload-encryption/v1" secret;
  hp = law.length-derive_key "apex/header-protection/v1" secret;
  base = omega (
    arith,
    length-take 12 (P.derive_key "apex/nonce-base/v1" secret),
    law.length-derive_key "apex/nonce-base/v1" secret,
  );
}

abbrev keys_of : List ℕ → List ℕ → List ℕ → Option PacketKeys
keys_of e h b =
    some (record { enc_key = e; hp_key = h; nonce_base = b; cipher_suite = chacha20_poly1305 })

keys_of_eq : {e e' h h' b b' : List ℕ} → e ≡ e' → h ≡ h' → b ≡ b' → keys_of e h b ≡ keys_of e' h' b'
keys_of_eq p q r = λ i. keys_of (p i) (q i) (r i)

-- Keys of the right lengths come back from their bytes, except that the cipher suite, which the
-- bytes do not hold, becomes the default one.
pub from_bytes-to_bytes :
    (k : PacketKeys)
    → IsSized k
    → from_bytes (to_bytes k) ≡ some (record k { cipher_suite = chacha20_poly1305 })
unfolding from_bytes to_bytes
from_bytes-to_bytes k s = rw (whole (length (k.enc_key ++ k.hp_key ++ k.nonce_base)) all) (
    keys_of_eq
      (ap (λ l. slice l 0 32) (append_assoc k.enc_key k.hp_key k.nonce_base)
        ∙ slice-front k.enc_key (k.hp_key ++ k.nonce_base) 32 s.enc)
      (slice-middle k.enc_key k.hp_key k.nonce_base 32 64 s.enc (omega (arith, s.hp)))
      (slice-end (k.enc_key ++ k.hp_key) k.nonce_base 64 76
        (omega (arith, length-append k.enc_key k.hp_key, s.enc, s.hp)) (omega (arith, s.base))))
  where
    all : length (k.enc_key ++ k.hp_key ++ k.nonce_base) ≡ 76
    all = omega (
      arith,
      length-append (k.enc_key ++ k.hp_key) k.nonce_base,
      length-append k.enc_key k.hp_key,
      s.enc,
      s.hp,
      s.base,
    )

    whole : (n : ℕ) → n ≡ 76 → (n == 76) ≡ true
    whole n h = ground arith
