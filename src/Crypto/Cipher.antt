-- ===== src/Crypto/Cipher.antt =====
-- src/crypto/mod.rs: the two authenticated ciphers behind one interface. BLAKE3, the ChaCha20 key
-- stream and the ciphers themselves are other packages' code: they are the parameter `Primitives`,
-- and `IsLawful` states what their documentation promises of them.
pub mod Laws
pub mod Toy
use Prim.Native.String.{String}
use seam.Prelude.{ℕ, ◌+◌, List, Option, some, ◌≡◌, ◌==◌, if◌then◌else◌, length}
use seam.Error.{Result, err, or_fail, auth_failed}

pub data CipherSuite : Type 0 where
  chacha20_poly1305 aes256_gcm : CipherSuite

-- `encrypt` and `decrypt` are `encrypt_in_place` and `decrypt_in_place` of the cipher packages,
-- with the arguments key, nonce, associated data and buffer. `keystream key nonce offset n` is the
-- `n` bytes of key stream from `offset` on.
pub record Primitives : Type 0 where
  pub derive_key : String → List ℕ → List ℕ
  pub keystream : List ℕ → List ℕ → ℕ → ℕ → List ℕ
  pub encrypt : CipherSuite → List ℕ → List ℕ → List ℕ → List ℕ → Option (List ℕ)
  pub decrypt : CipherSuite → List ℕ → List ℕ → List ℕ → List ℕ → Option (List ℕ)

-- A cipher decrypts what it has encrypted, whose length it raises by that of a tag, 16 bytes. Derived
-- keys have 32 bytes.
pub record IsLawful (P : Primitives) : Type 0 where
  pub decrypt-encrypt :
      (suite : CipherSuite) (key nonce aad m c : List ℕ)
      → P.encrypt suite key nonce aad m ≡ some c
      → P.decrypt suite key nonce aad c ≡ some m
  pub length-encrypt :
      (suite : CipherSuite) (key nonce aad m c : List ℕ)
      → P.encrypt suite key nonce aad m ≡ some c
      → length c ≡ length m + 16
  pub length-derive_key :
      (context : String) (secret : List ℕ) → length (P.derive_key context secret) ≡ 32

module _ (P : Primitives) where
  -- `make_cipher(suite, key).encrypt_in_place(nonce, aad, buffer)`, with the buffer as the result.
  pub encrypt_in_place : CipherSuite → (key nonce aad buffer : List ℕ) → Result (List ℕ)
  encrypt_in_place suite key nonce aad buffer =
      if length nonce == 12
      then or_fail (P.encrypt suite key nonce aad buffer) auth_failed
      else err auth_failed

  pub decrypt_in_place : CipherSuite → (key nonce aad buffer : List ℕ) → Result (List ℕ)
  decrypt_in_place suite key nonce aad buffer =
      if length nonce == 12
      then or_fail (P.decrypt suite key nonce aad buffer) auth_failed
      else err auth_failed
