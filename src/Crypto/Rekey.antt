-- ===== src/Crypto/Rekey.antt =====
-- src/crypto/rekey.rs: the chain of traffic secrets. Zeroizing a secret that is replaced has no effect
-- here.
pub mod Chain
mod Tests
use seam.Prelude.{ℕ, ◌%◌, List, Option, none, some, Bool, ◌==◌}
use seam.Prelude.Words.{add64}
use seam.Crypto.Cipher.{Primitives, CipherSuite, chacha20_poly1305}
use seam.Crypto.Keys.{PacketKeys, derive_from_secret_with_cipher}

pub record KeySchedule : Type 0 where
  pub current_secret : List ℕ
  pub cipher_suite : CipherSuite
  pub current : PacketKeys
  pub next : Option PacketKeys
  pub epoch : ℕ

-- `self.epoch & 1 == 1`
pub key_phase : KeySchedule → Bool
key_phase s = s.epoch % 2 == 1

module _ (P : Primitives) where
  pub new_with_cipher : List ℕ → CipherSuite → KeySchedule
  new_with_cipher initial_secret cipher_suite = record {
    current_secret = initial_secret;
    cipher_suite = cipher_suite;
    current = derive_from_secret_with_cipher P initial_secret cipher_suite;
    next = none;
    epoch = 0;
  }

  pub new : List ℕ → KeySchedule
  unfolding new_with_cipher
  new initial_secret = new_with_cipher initial_secret chacha20_poly1305

  pub next_secret : List ℕ → List ℕ
  next_secret secret = P.derive_key "apex/key-update/v1" secret

  pub prepare_next : KeySchedule → KeySchedule
  unfolding next_secret
  prepare_next s = elim (s.next) [
    | some keys ↦ s
    | none ↦ record s {
      next = some (derive_from_secret_with_cipher P (next_secret s.current_secret) s.cipher_suite);
    }
  ]

  -- `self.next.take().unwrap_or_else(..)`
  abbrev taken : KeySchedule → Option PacketKeys → PacketKeys
  taken s none = derive_from_secret_with_cipher P s.current_secret s.cipher_suite
  taken s (some keys) = keys

  pub rotate : KeySchedule → KeySchedule
  unfolding prepare_next next_secret
  rotate s =
      let prepared = prepare_next s in
      let s' = record prepared { current_secret = next_secret prepared.current_secret } in
      record s' { current = taken s' s'.next; next = none; epoch = add64 s'.epoch 1 }
