-- ===== src/Crypto/Keys.antt =====
-- src/crypto/keys.rs: the keys of one direction, their derivation and their 76 bytes, and
-- src/crypto/header.rs: header protection with one of them.
pub mod RoundTrip
use seam.Prelude.{ℕ, ◌*◌, List, [], ◌++◌, Option, none, some, ◌==◌, if◌then◌else◌, length, take}
use seam.Prelude.Bytes.{from_le, slice}
use seam.Prelude.Xor.{xor_bytes}
use seam.Crypto.Cipher.{Primitives, CipherSuite, chacha20_poly1305}

pub record PacketKeys : Type 0 where
  pub enc_key : List ℕ
  pub hp_key : List ℕ
  pub nonce_base : List ℕ
  pub cipher_suite : CipherSuite

pub new_with_cipher : List ℕ → List ℕ → List ℕ → CipherSuite → PacketKeys
new_with_cipher enc_key hp_key nonce_base cipher_suite = record {
  enc_key = enc_key;
  hp_key = hp_key;
  nonce_base = nonce_base;
  cipher_suite = cipher_suite;
}

pub new : List ℕ → List ℕ → List ℕ → PacketKeys
unfolding new_with_cipher
new enc_key hp_key nonce_base = new_with_cipher enc_key hp_key nonce_base chacha20_poly1305

module _ (P : Primitives) where
  pub derive_from_secret_with_cipher : List ℕ → CipherSuite → PacketKeys
  derive_from_secret_with_cipher secret cipher_suite = record {
    enc_key = P.derive_key "apex/payload-encryption/v1" secret;
    hp_key = P.derive_key "apex/header-protection/v1" secret;
    nonce_base = take 12 (P.derive_key "apex/nonce-base/v1" secret);
    cipher_suite = cipher_suite;
  }

  pub derive_from_secret : List ℕ → PacketKeys
  unfolding derive_from_secret_with_cipher
  derive_from_secret secret = derive_from_secret_with_cipher secret chacha20_poly1305

  -- The mask is the key stream from block `counter` on.
  pub apply_header_protection : (hp_key header ciphertext : List ℕ) → List ℕ
  apply_header_protection hp_key header ciphertext =
      let nonce = slice ciphertext 0 12 in
      let counter = from_le (slice ciphertext 12 16) in
      xor_bytes header (P.keystream hp_key nonce (counter * 64) 32)

-- `out` is an array of 76 bytes, which the three copies fill.
pub to_bytes : PacketKeys → List ℕ
to_bytes keys = keys.enc_key ++ keys.hp_key ++ keys.nonce_base

pub from_bytes : List ℕ → Option PacketKeys
from_bytes bytes =
    if length bytes == 76
    then some (record {
      enc_key = slice bytes 0 32;
      hp_key = slice bytes 32 64;
      nonce_base = slice bytes 64 76;
      cipher_suite = chacha20_poly1305;
    })
    else none
