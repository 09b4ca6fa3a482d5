-- ===== src/Crypto/Decoder/Tests.antt =====
-- Instances of the theorems about src/crypto/decoder.rs.
use mathlib.Core.Option.{some-injective}
use seam.Prelude.{
  ℕ, sym, ap, ◌∙◌, ◌-◌, length, length-take, List, [], ◌∷◌, ◌++◌, ◌≡◌, refl, arith, replicate,
}
use seam.Error.{ok}
use seam.Packet.{data_frame}
use seam.Crypto.Replay
use seam.Crypto.Replay.{check, commit}
use seam.Crypto.Replay.Effect.{new-IsValid, check-new}
use seam.Crypto.Cipher.{chacha20_poly1305}
use seam.Crypto.Cipher.Toy.{toy, toy_tag, toy-IsLawful}
use seam.Crypto.Encoder.{PacketEncoder, encode}
use seam.Crypto.Decoder.{decode}
use seam.Crypto.Decoder.Safety.{DropsTag, Outcome, decode-Outcome}
use seam.Crypto.Decoder.RoundTrip.{receiver, decode-encode}

abbrev sender : PacketEncoder
sender = record {
  keys = record {
    enc_key = replicate 32 1;
    hp_key = replicate 32 2;
    nonce_base = replicate 12 3;
    cipher_suite = chacha20_poly1305;
  };
  session_id = 77;
  next_pkt_num = 0;
}

abbrev plain : List ℕ
plain = 10 ∷ 20 ∷ 30 ∷ []

decode-encode_example :
    ((encode toy sender data_frame plain (replicate 51 0)).0 ≡ ok 51)
    × ((decode toy
          (receiver sender Replay.new)
          (encode toy sender data_frame plain (replicate 51 0)).2).0
        ≡ ok (data_frame, 0, plain))
    × ((decode toy
          (receiver sender Replay.new)
          (encode toy sender data_frame plain (replicate 51 0)).2).1
        ≡ receiver sender (commit Replay.new 0).1)
decode-encode_example =
    decode-encode toy sender Replay.new data_frame plain (replicate 51 0) (plain ++ toy_tag)
      toy-IsLawful refl (omega arith) new-IsValid check-new refl (omega arith) refl

toy-DropsTag : DropsTag toy
toy-DropsTag = record {
  length-decrypt = λ suite key nonce aad c m e.
      ap length (sym (some-injective _ _ e)) ∙ omega (arith, length-take (length c - 16) c);
}

decode-Outcome_example :
    Outcome toy
      (receiver sender Replay.new)
      (encode toy sender data_frame plain (replicate 51 0)).2
      (decode toy
        (receiver sender Replay.new)
        (encode toy sender data_frame plain (replicate 51 0)).2)
decode-Outcome_example =
    decode-Outcome toy (receiver sender Replay.new)
      (encode toy sender data_frame plain (replicate 51 0)).2 toy-DropsTag new-IsValid
