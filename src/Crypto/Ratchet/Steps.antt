-- ===== src/Crypto/Ratchet/Steps.antt =====
-- The two ends of src/crypto/ratchet.rs after a step to the next epoch.
use Prim.Native.String.{String}
use seam.Prelude.{ℕ, List, [], ◌∷◌, ◌++◌, some, ◌≡◌, refl, sym, ap, ◌∙◌, arith}
use seam.Crypto.Ratchet.{
  RatchetStep, DoubleRatchet, message_key, next_send_key, next_recv_key, recv_key, skip_keys,
  purge_expired, find_skipped, recv_packet_index_in_epoch, derive_new_root, advance_send_ratchet,
  apply_peer_ratchet_step,
}

module _ (derive_key : String → List ℕ → List ℕ) (dh_exchange : List ℕ → List ℕ → List ℕ)
    (ephemeral_public : List ℕ → List ℕ) where
  -- The end that steps, and the end to which it announces the step.
  abbrev pub stepped : ℕ → List ℕ → DoubleRatchet → RatchetStep × DoubleRatchet
  stepped = advance_send_ratchet derive_key dh_exchange ephemeral_public

  abbrev pub followed : DoubleRatchet → RatchetStep → DoubleRatchet
  followed = apply_peer_ratchet_step derive_key dh_exchange ephemeral_public

  first_key :
      (now now' : ℕ) (fresh : List ℕ) (sender receiver : DoubleRatchet)
      → receiver.skipped ≡ []
      → (next_recv_key derive_key now'
          (followed receiver (stepped now fresh sender).0)
          (stepped now fresh sender).1.send_epoch
          0).0
        ≡ some
            (message_key derive_key (followed receiver (stepped now fresh sender).0).recv_chain_key)
  unfolding next_recv_key advance_send_ratchet apply_peer_ratchet_step recv_key skip_keys
      find_skipped purge_expired recv_packet_index_in_epoch
  first_key now now' fresh sender receiver clean = ground (arith, clean)

  -- Even where the two ends have one root key and agree in the key exchange of a step, and the receiver
  -- has no skipped keys: the step leaves both with the same new root key, the sender derives its key
  -- for the first packet of the new epoch through the context of a send chain, and the receiver
  -- derives its key for that packet through the context of a receive chain.
  pub after_step-keys :
      (now now' : ℕ) (fresh : List ℕ) (sender receiver : DoubleRatchet)
      → receiver.skipped ≡ []
      → sender.root_key ≡ receiver.root_key
      → dh_exchange fresh sender.their_ephemeral
        ≡ dh_exchange receiver.our_ephemeral (ephemeral_public fresh)
      → (root : List ℕ) × (root
          ≡ derive_key "seam ratchet root 2026"
              (sender.root_key ++ dh_exchange fresh sender.their_ephemeral))
        × ((stepped now fresh sender).1.root_key ≡ root)
        × ((followed receiver (stepped now fresh sender).0).root_key ≡ root)
        × ((next_send_key derive_key (stepped now fresh sender).1).0
            ≡ derive_key "seam ratchet message 2026"
                (derive_key "seam ratchet send-chain 2026" root ++ (2 ∷ [])))
        × ((next_recv_key derive_key now'
              (followed receiver (stepped now fresh sender).0)
              (stepped now fresh sender).1.send_epoch
              0).0
            ≡ some (
                derive_key "seam ratchet message 2026"
                  (derive_key "seam ratchet recv-chain 2026" root ++ (2 ∷ []))))
  unfolding next_send_key advance_send_ratchet apply_peer_ratchet_step message_key derive_new_root
  after_step-keys now now' fresh sender receiver clean root exchanged =
      let agreed : derive_new_root derive_key receiver.root_key
            (dh_exchange receiver.our_ephemeral (ephemeral_public fresh))
          ≡ derive_new_root derive_key sender.root_key (dh_exchange fresh sender.their_ephemeral) =
        λ i. derive_new_root derive_key (sym root i) (sym exchanged i) in
      (
        _,
        refl,
        refl,
        agreed,
        refl,
        first_key now now' fresh sender receiver clean
            ∙ ap (λ r. some (message_key derive_key (derive_key "seam ratchet recv-chain 2026" r)))
                agreed,
      )
