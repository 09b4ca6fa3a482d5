-- ===== src/Crypto/Ratchet/Chains.antt =====
-- Steps of src/crypto/ratchet.rs through their bytes, and the keys that the two ends derive.
use Prim.Native.String.{String}
use seam.Prelude.{
  ℕ, ◌≤◌, ◌<◌, List, [], ◌++◌, some, true, false, ◌≡◌, refl, sym, ap, ◌∙◌, arith, ltb, ◌==◌, length,
  length-append,
}
use seam.Prelude.Bytes.{u64_mod, to_le, from_le, slice, length-to_le, from_le-to_le}
use seam.Prelude.Splice.{slice-front, slice-end}
use seam.Crypto.Ratchet.{
  RatchetStep, DoubleRatchet, step_to_bytes, step_from_bytes, next_chain_key, message_key,
  skip_keys, recv_key, next_recv_key, next_send_key, purge_expired, find_skipped,
  recv_packet_index_in_epoch,
}

-- A ratchet step with a key of 32 bytes and an epoch of 64 bits comes back from its bytes.
pub step_from_bytes-step_to_bytes :
    (s : RatchetStep)
    → length s.new_ephemeral_public ≡ 32
    → s.epoch < u64_mod
    → step_from_bytes (step_to_bytes s) ≡ some s
unfolding step_from_bytes step_to_bytes
step_from_bytes-step_to_bytes s h k =
    rw
      (long (length (s.new_ephemeral_public ++ to_le 8 s.epoch)) (
        omega
          (arith, length-append s.new_ephemeral_public (to_le 8 s.epoch), length-to_le 8 s.epoch)))
      (λ i. some (record { new_ephemeral_public = public i; epoch = epoch i }))
  where
    long : (n : ℕ) → 40 ≤ n → ltb n 40 ≡ false
    long n h = ground arith

    public : slice (s.new_ephemeral_public ++ to_le 8 s.epoch) 0 32 ≡ s.new_ephemeral_public
    public = slice-front s.new_ephemeral_public (to_le 8 s.epoch) 32 h

    epoch : from_le (slice (s.new_ephemeral_public ++ to_le 8 s.epoch) 32 40) ≡ s.epoch
    epoch =
        ap from_le (
          slice-end s.new_ephemeral_public (to_le 8 s.epoch) 32 40 h
            (omega (arith, length-to_le 8 s.epoch)))
        ∙ from_le-to_le 8 s.epoch k

module _ (derive_key : String → List ℕ → List ℕ) where
  -- A receiver that has kept no skipped key.
  abbrev pub cleared : DoubleRatchet → DoubleRatchet
  cleared r = record r { skipped = [] }

  self : (n : ℕ) → (n == n) ≡ true
  self n = ground arith

  recv_first :
      (now : ℕ) (r : DoubleRatchet)
      → next_recv_key derive_key now (cleared r) r.recv_epoch 0 ≡ (
        some (message_key derive_key r.recv_chain_key),
        record (cleared r) { recv_chain_key = next_chain_key derive_key r.recv_chain_key },
      )
  unfolding next_recv_key recv_key skip_keys find_skipped purge_expired recv_packet_index_in_epoch
  recv_first now r = rw (self r.recv_epoch, next_recv_key, recv_key) refl

  recv_second :
      (now : ℕ) (r : DoubleRatchet)
      → (next_recv_key derive_key now (cleared r) r.recv_epoch 1).0
        ≡ some (message_key derive_key (next_chain_key derive_key r.recv_chain_key))
  unfolding next_recv_key recv_key skip_keys find_skipped purge_expired recv_packet_index_in_epoch
  recv_second now r = rw (self r.recv_epoch, next_recv_key, recv_key) refl

  -- Two packets received in order, with no key kept back before: the first gives the sender's first
  -- key, but the second gives the key of the sender's third packet, not of its second. The chains are
  -- those of a sender and a receiver that begin at one chain key.
  pub next_recv_key_second :
      (now later : ℕ) (s r : DoubleRatchet)
      → s.send_chain_key ≡ r.recv_chain_key
      → let first = next_recv_key derive_key now (cleared r) r.recv_epoch 0 in
        let s1 = (next_send_key derive_key s).1 in
        let s2 = (next_send_key derive_key s1).1 in
        (first.0 ≡ some (next_send_key derive_key s).0)
        × ((next_recv_key derive_key later first.1 r.recv_epoch 1).0
            ≡ some (next_send_key derive_key s2).0)
  unfolding next_send_key
  next_recv_key_second now later s r h = rw (recv_first now r) (
    ap (λ k. some (message_key derive_key k)) (sym h),
    recv_second later (record r { recv_chain_key = next_chain_key derive_key r.recv_chain_key })
        ∙ ap
            (λ k.
              some
                (message_key derive_key (next_chain_key derive_key (next_chain_key derive_key k))))
            (sym h),
  )
