-- ===== src/Handshake/Cookie/Window.antt =====
-- Which cookies src/handshake/cookie.rs accepts.
use seam.Prelude.{
  ℕ, ◌+◌, ◌-◌, ◌/◌, ◌≤◌, ◌<◌, List, [], ◌∷◌, ◌++◌, Bool, true, false, ◌||◌, ◌≡◌, refl, sym, ap, ◌∙◌,
  ◌⊎◌, inl, inr, arith, ltb, ◌==◌, if◌then◌else◌, Bool-cases, replicate,
}
use seam.Prelude.Bytes.{to_le}
use seam.Handshake.Cookie.{CookieFactory, new, bucket, bytes_eq, compute, generate, verify}

pub bytes_eq_refl : (xs : List ℕ) → bytes_eq xs xs ≡ true
unfolding bytes_eq
bytes_eq_refl [] = refl
bytes_eq_refl (x ∷ xs) = ground (arith, bytes_eq_refl xs)

pub bytes_eq_sound : (xs ys : List ℕ) → bytes_eq xs ys ≡ true → xs ≡ ys
unfolding bytes_eq
bytes_eq_sound [] [] h = refl
bytes_eq_sound [] (y ∷ ys) h = absurd (ground arith)
bytes_eq_sound (x ∷ xs) [] h = absurd (ground arith)
bytes_eq_sound (x ∷ xs) (y ∷ ys) h = λ i. same i ∷ bytes_eq_sound xs ys (ground arith) i
  where
    same : x ≡ y
    same = ground arith

or_true : (b : Bool) → (b || true) ≡ true
or_true true = refl
or_true false = refl

module _ (keyed_hash : List ℕ → List ℕ → List ℕ) where
  -- The answer of `verify` in span `b`.
  abbrev accept : CookieFactory → List ℕ → ℕ → List ℕ → Bool
  accept f client_addr b cookie =
      bytes_eq (compute keyed_hash f client_addr b) cookie
      || bytes_eq (if ltb 0 b then compute keyed_hash f client_addr (b - 1) else replicate 32 0)
          cookie

  accept_cur :
      (f : CookieFactory) (client_addr : List ℕ) (b m : ℕ)
      → b ≡ m
      → accept f client_addr b (compute keyed_hash f client_addr m) ≡ true
  accept_cur f client_addr b m e =
      ap (λ k. accept f client_addr k (compute keyed_hash f client_addr m)) e
      ∙ ap
          (λ x.
            x
            || bytes_eq
                (if ltb 0 m then compute keyed_hash f client_addr (m - 1) else replicate 32 0)
                (compute keyed_hash f client_addr m))
          (bytes_eq_refl (compute keyed_hash f client_addr m))

  accept_prev :
      (f : CookieFactory) (client_addr : List ℕ) (b m : ℕ)
      → b ≡ m + 1
      → accept f client_addr b (compute keyed_hash f client_addr m) ≡ true
  accept_prev f client_addr b m e = rw (positive b (omega arith)) (
      ap
        (λ k.
          bytes_eq (compute keyed_hash f client_addr b) (compute keyed_hash f client_addr m)
          || bytes_eq (compute keyed_hash f client_addr k) (compute keyed_hash f client_addr m))
        {x = b - 1} {y = m} (omega arith)
      ∙ ap
          (λ x.
            bytes_eq (compute keyed_hash f client_addr b) (compute keyed_hash f client_addr m) || x)
          (bytes_eq_refl (compute keyed_hash f client_addr m))
      ∙ or_true
          (bytes_eq (compute keyed_hash f client_addr b) (compute keyed_hash f client_addr m)))
    where
      positive : (k : ℕ) → 0 < k → ltb 0 k ≡ true
      positive k h = ground arith

  -- A cookie is accepted from the address that it was made for, for at least 30 seconds.
  pub verify-generate :
      (secret client_addr : List ℕ) (made now : ℕ)
      → made ≤ now
      → now ≤ made + 30
      → verify keyed_hash now
          (new secret)
          client_addr
          (generate keyed_hash made (new secret) client_addr)
        ≡ true
  unfolding verify generate new bucket
  verify-generate secret client_addr made now h k = elim (Bool-cases (now / 30 == made / 30)) [
    | inl same ↦ accept_cur (new secret) client_addr (now / 30) (made / 30) (ground arith)
    | inr later ↦ accept_prev (new secret) client_addr (now / 30) (made / 30) (ground arith)
  ]

  -- From the second span of the clock on, an accepted cookie is the hash, keyed with the secret, of the
  -- bytes of this address followed by the 8 bytes, in little-endian order, of the number of this span
  -- or of the one before.
  pub verify_sound :
      (f : CookieFactory) (client_addr cookie : List ℕ) (now : ℕ)
      → 0 < now / f.bucket_secs
      → verify keyed_hash now f client_addr cookie ≡ true
      → (cookie ≡ keyed_hash f.secret (client_addr ++ to_le 8 (now / f.bucket_secs)))
        ⊎ (cookie ≡ keyed_hash f.secret (client_addr ++ to_le 8 (now / f.bucket_secs - 1)))
  unfolding verify compute bucket
  verify_sound f client_addr cookie now p h = sound (now / f.bucket_secs) p h
    where
      one_of : (x y : Bool) → (x || y) ≡ true → (x ≡ true) ⊎ (y ≡ true)
      one_of true y h = inl refl
      one_of false y h = inr h

      previous :
          (b : ℕ)
          → 0 < b
          → (if ltb 0 b then compute keyed_hash f client_addr (b - 1) else replicate 32 0)
            ≡ compute keyed_hash f client_addr (b - 1)
      previous b p = ground arith

      sound :
          (b : ℕ)
          → 0 < b
          → accept f client_addr b cookie ≡ true
          → (cookie ≡ compute keyed_hash f client_addr b)
            ⊎ (cookie ≡ compute keyed_hash f client_addr (b - 1))
      sound b p h = elim (one_of (bytes_eq (compute keyed_hash f client_addr b) cookie) _ h) [
        | inl cur ↦ inl (sym (bytes_eq_sound (compute keyed_hash f client_addr b) cookie cur))
        | inr old ↦ inr (
            sym (
              bytes_eq_sound (compute keyed_hash f client_addr (b - 1)) cookie
                (ap (λ c. bytes_eq c cookie) (sym (previous b p)) ∙ old)))
      ]

  -- While the clock stands in the first 30 seconds of 1970, or before, the cookie of 32 zero bytes is
  -- accepted from every address, whatever the secret.
  pub verify_epoch :
      (secret client_addr : List ℕ) (now : ℕ)
      → now < 30
      → verify keyed_hash now (new secret) client_addr (replicate 32 0) ≡ true
  unfolding verify new bucket
  verify_epoch secret client_addr now h =
      ap (λ b. accept (new secret) client_addr b (replicate 32 0)) {x = now / 30} {y = 0}
        (omega arith)
      ∙ ap (λ x. bytes_eq (compute keyed_hash (new secret) client_addr 0) (replicate 32 0) || x)
          (bytes_eq_refl (replicate 32 0))
      ∙ or_true (bytes_eq (compute keyed_hash (new secret) client_addr 0) (replicate 32 0))
