-- ===== src/Crypto/Cipher/Toy.antt =====
-- A cipher that keeps the plaintext and adds a constant tag: it obeys the laws that are asked of the
-- cipher packages, and runs.
use seam.Prelude.{
  ℕ, ◌-◌, List, ◌++◌, some, refl, sym, ap, ◌∙◌, arith, length, take, replicate, length-append,
}
use seam.Prelude.Splice.{take-front}
use mathlib.Core.Option.{some-injective}
use seam.Crypto.Cipher.{Primitives, IsLawful}

abbrev pub toy_tag : List ℕ
toy_tag = replicate 16 9

abbrev pub toy : Primitives
toy = record {
  derive_key = λ context secret. replicate 32 7;
  keystream = λ key nonce offset n. replicate n 90;
  encrypt = λ suite key nonce aad m. some (m ++ toy_tag);
  decrypt = λ suite key nonce aad c. some (take (length c - 16) c);
}

pub toy-IsLawful : IsLawful toy
toy-IsLawful = record {
  decrypt-encrypt = λ suite key nonce aad m c e.
      ap (λ x. some (take (length x - 16) x)) (sym (some-injective _ _ e))
      ∙ ap some (take-front m toy_tag _ (omega (arith, length-append m toy_tag)));
  length-encrypt =
      λ suite key nonce aad m c e. ap length (sym (some-injective _ _ e)) ∙ length-append m toy_tag;
  length-derive_key = λ context secret. refl;
}
