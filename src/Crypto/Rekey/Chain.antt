-- ===== src/Crypto/Rekey/Chain.antt =====
-- The keys of src/crypto/rekey.rs after any use of the schedule.
use seam.Prelude.{
  ℕ, zero, suc, ◌+◌, ◌<◌, List, [], ◌∷◌, Option, none, some, ◌≡◌, refl, ap, ◌∙◌, ◌⊎◌, inl, inr,
  arith,
}
use seam.Prelude.Bytes.{u64_mod}
use seam.Prelude.Words.{add64}
use seam.Crypto.Cipher.{Primitives, CipherSuite}
use seam.Crypto.Keys.{PacketKeys, derive_from_secret_with_cipher}
use seam.Crypto.Rekey.{KeySchedule, new_with_cipher, next_secret, prepare_next, rotate, taken}

pub data Use : Type 0 where
  prepares rotates : Use

abbrev pub rotations : List Use → ℕ
rotations [] = 0
rotations (prepares ∷ uses) = rotations uses
rotations (rotates ∷ uses) = suc (rotations uses)

module _ (P : Primitives) where
  -- The secret of epoch `n`.
  pub secret_of : List ℕ → ℕ → List ℕ
  secret_of initial zero = initial
  secret_of initial (suc n) = next_secret P (secret_of initial n)

  -- The keys of epoch `n`.
  abbrev pub keys_of : List ℕ → CipherSuite → ℕ → PacketKeys
  keys_of initial suite n = derive_from_secret_with_cipher P (secret_of initial n) suite

  pub record AtEpoch (initial : List ℕ) (suite : CipherSuite) (n : ℕ) (s : KeySchedule)
      : Type 0 where
    pub secret : s.current_secret ≡ secret_of initial n
    pub same_suite : s.cipher_suite ≡ suite
    pub keys : s.current ≡ keys_of initial suite n
    pub upcoming : (s.next ≡ none) ⊎ (s.next ≡ some (keys_of initial suite (suc n)))
    pub number : s.epoch ≡ n

  step : KeySchedule → Use → KeySchedule
  step s prepares = prepare_next P s
  step s rotates = rotate P s

  -- Uses are listed from the last to the first.
  pub after : List ℕ → CipherSuite → List Use → KeySchedule
  unfolding step
  after initial suite [] = new_with_cipher P initial suite
  after initial suite (u ∷ earlier) = step (after initial suite earlier) u

  abbrev cases : KeySchedule → Option PacketKeys → KeySchedule
  cases s o = elim o [
    | some keys ↦ s
    | none ↦ record s {
      next =
          some (derive_from_secret_with_cipher P (next_secret P s.current_secret) s.cipher_suite);
    }
  ]

  prepare_next-some : (s : KeySchedule) (k : PacketKeys) → s.next ≡ some k → prepare_next P s ≡ s
  unfolding prepare_next
  prepare_next-some s k h = ap (cases s) h

  prepare_next-none :
      (s : KeySchedule)
      → s.next ≡ none
      → prepare_next P s ≡ record s {
        next =
            some (derive_from_secret_with_cipher P (next_secret P s.current_secret) s.cipher_suite);
      }
  unfolding prepare_next
  prepare_next-none s h = ap (cases s) h

  -- Preparing makes the next epoch's keys, and nothing else changes.
  prepared :
      (initial : List ℕ) (suite : CipherSuite) (n : ℕ) (s : KeySchedule)
      → AtEpoch initial suite n s
      → AtEpoch initial suite n (prepare_next P s)
        × ((prepare_next P s).next ≡ some (keys_of initial suite (suc n)))
  unfolding secret_of
  prepared initial suite n s a = elim a.upcoming [
    | inl empty ↦ rw (prepare_next-none s empty) (
      record {
        secret = a.secret;
        same_suite = a.same_suite;
        keys = a.keys;
        upcoming = inr next_keys;
        number = a.number;
      },
      next_keys,
    )
    | inr ready ↦ rw (prepare_next-some s _ ready) (a, ready)
  ]
    where
      next_keys :
          some (derive_from_secret_with_cipher P (next_secret P s.current_secret) s.cipher_suite)
          ≡ some (keys_of initial suite (suc n))
      next_keys =
          λ i. some (derive_from_secret_with_cipher P (next_secret P (a.secret i)) (a.same_suite i))

  rotated :
      (initial : List ℕ) (suite : CipherSuite) (n : ℕ) (s : KeySchedule)
      → n + 1 < u64_mod
      → AtEpoch initial suite n s
      → AtEpoch initial suite (suc n) (rotate P s)
  unfolding rotate secret_of
  rotated initial suite n s h a =
      let (b, ready) = prepared initial suite n s a in
      record {
        secret = ap (next_secret P) b.secret;
        same_suite = b.same_suite;
        keys =
            ap
              (taken P (record (prepare_next P s) {
                current_secret = next_secret P (prepare_next P s).current_secret;
              }))
              ready;
        upcoming = inl refl;
        number = ap (λ e. add64 e 1) b.number ∙ omega arith;
      }

  -- However preparing and rotating are mixed, after `n` rotations (fewer than 2^64) the schedule is in
  -- epoch `n` with the keys of the `n`th secret of the chain, and the keys it may have prepared are
  -- those of the next.
  pub after-AtEpoch :
      (initial : List ℕ) (suite : CipherSuite) (uses : List Use)
      → rotations uses < u64_mod
      → AtEpoch initial suite (rotations uses) (after initial suite uses)
  unfolding after step new_with_cipher secret_of
  after-AtEpoch initial suite [] h = record {
    secret = refl;
    same_suite = refl;
    keys = refl;
    upcoming = inl refl;
    number = refl;
  }
  after-AtEpoch initial suite (prepares ∷ uses) h =
      (prepared initial suite (rotations uses) (after initial suite uses)
        (after-AtEpoch initial suite uses h)).0
  after-AtEpoch initial suite (rotates ∷ uses) h =
      rotated initial suite (rotations uses) (after initial suite uses) (omega arith)
        (after-AtEpoch initial suite uses (omega arith))
