-- ===== src/Crypto/Cipher/Laws.antt =====
-- The interface of src/crypto/mod.rs with a nonce of the right length.
use seam.Prelude.{
  ℕ, List, Option, none, some, true, ◌≡◌, ◌≢◌, refl, sym, ◌∙◌, arith, ◌==◌, Bool-cases, inl, inr,
  length,
}
use seam.Error.{Result, ok, err, or_fail, auth_failed}
use seam.Crypto.Cipher.{Primitives, CipherSuite, encrypt_in_place, decrypt_in_place}

twelve : (n : ℕ) → n ≡ 12 → (n == 12) ≡ true
twelve n h = ground arith

module _ (P : Primitives) (suite : CipherSuite) (key nonce aad : List ℕ) where
  pub encrypt_in_place_lem :
      (m c : List ℕ)
      → length nonce ≡ 12
      → P.encrypt suite key nonce aad m ≡ some c
      → encrypt_in_place P suite key nonce aad m ≡ ok c
  unfolding encrypt_in_place
  encrypt_in_place_lem m c h e = rw (twelve (length nonce) h) (rw e refl)

  pub encrypt_in_place-none :
      (m : List ℕ)
      → P.encrypt suite key nonce aad m ≡ none
      → encrypt_in_place P suite key nonce aad m ≡ err auth_failed
  unfolding encrypt_in_place
  encrypt_in_place-none m e = elim (Bool-cases (length nonce == 12)) [
    | inl right ↦ rw right (rw e refl)
    | inr wrong ↦ rw wrong refl
  ]

  pub decrypt_in_place_lem :
      (c : List ℕ)
      → length nonce ≡ 12
      → decrypt_in_place P suite key nonce aad c
        ≡ or_fail (P.decrypt suite key nonce aad c) auth_failed
  unfolding decrypt_in_place
  decrypt_in_place_lem c h = rw (twelve (length nonce) h) refl

-- A cipher opens nothing under a nonce of another length.
pub decrypt_in_place-ok :
    (P : Primitives) (suite : CipherSuite) (key nonce aad c m : List ℕ)
    → decrypt_in_place P suite key nonce aad c ≡ ok m
    → (length nonce ≡ 12) × (P.decrypt suite key nonce aad c ≡ some m)
unfolding decrypt_in_place
decrypt_in_place-ok P suite key nonce aad c m h = elim (Bool-cases (length nonce == 12)) [
  | inl twelve ↦ (ground arith, opened (P.decrypt suite key nonce aad c) (sym (rw twelve refl) ∙ h))
  | inr other ↦ absurd (failed (sym (rw other refl) ∙ h))
]
  where
    failed : ◌≢◌ {A = Result (List ℕ)} (err auth_failed) (ok m)
    failed e = cc e

    opened : (o : Option (List ℕ)) → or_fail o auth_failed ≡ ok m → o ≡ some m
    opened none e = absurd (failed e)
    opened (some x) e = cc e
