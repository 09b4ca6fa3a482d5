-- ===== src/Crypto/Ratchet.antt =====
-- src/crypto/ratchet.rs: the chains of message keys in one direction of a session. BLAKE3's key
-- derivation and X25519 are parameters, a new ephemeral key and the clock (nanoseconds) arguments.
-- Zeroizing has no effect here.
pub mod Chains
pub mod Steps
mod Tests
use Prim.Native.String.{String}
use seam.Prelude.{
  ℕ, zero, suc, ◌+◌, ◌-◌, ◌*◌, List, [], ◌∷◌, ◌++◌, Option, none, some, Bool, true, false, not,
  ◌&&◌, ◌||◌, ltb, leb, ◌==◌, if◌then◌else◌, length, replicate,
}
use seam.Prelude.Bytes.{to_le, from_le, slice}
use seam.Prelude.Words.{add64}

abbrev pub max_skip : ℕ
max_skip = 50

abbrev pub skip_key_ttl : ℕ
skip_key_ttl = 30 * 1_000_000_000

abbrev pub default_epoch_packet_limit : ℕ
default_epoch_packet_limit = 1000

abbrev pub default_epoch_time_limit : ℕ
default_epoch_time_limit = 30 * 1_000_000_000

pub record RatchetStep : Type 0 where
  pub new_ephemeral_public : List ℕ
  pub epoch : ℕ

pub step_to_bytes : RatchetStep → List ℕ
step_to_bytes s = s.new_ephemeral_public ++ to_le 8 s.epoch

pub step_from_bytes : List ℕ → Option RatchetStep
step_from_bytes bytes =
    if ltb (length bytes) 40
    then none
    else some
        (record { new_ephemeral_public = slice bytes 0 32; epoch = from_le (slice bytes 32 40) })

-- A skipped key, with the epoch and the index under which it is stored.
pub record SkipEntry : Type 0 where
  pub epoch : ℕ
  pub index : ℕ
  pub key : List ℕ
  pub inserted_at : ℕ

pub record DoubleRatchet : Type 0 where
  pub root_key : List ℕ
  pub send_chain_key : List ℕ
  pub recv_chain_key : List ℕ
  pub send_epoch : ℕ
  pub recv_epoch : ℕ
  pub packets_in_epoch : ℕ
  pub epoch_packet_limit : ℕ
  pub epoch_time_limit : ℕ
  pub last_ratchet : ℕ
  pub our_ephemeral : List ℕ
  pub their_ephemeral : List ℕ
  pub skipped : List SkipEntry

pub should_ratchet : ℕ → DoubleRatchet → Bool
should_ratchet now r =
    leb r.epoch_packet_limit r.packets_in_epoch || leb r.epoch_time_limit (now - r.last_ratchet)

-- `HashMap::remove` and `HashMap::insert`.
pub find_skipped : ℕ → ℕ → List SkipEntry → Option (List ℕ)
find_skipped e i [] = none
find_skipped e i (s ∷ rest) =
    let later = find_skipped e i rest in if s.epoch == e && s.index == i then some s.key else later

pub remove_skipped : ℕ → ℕ → List SkipEntry → List SkipEntry
remove_skipped e i [] = []
remove_skipped e i (s ∷ rest) =
    let others = remove_skipped e i rest in
    if s.epoch == e && s.index == i then others else s ∷ others

pub purge_expired : ℕ → List SkipEntry → List SkipEntry
purge_expired now [] = []
purge_expired now (s ∷ rest) =
    let others = purge_expired now rest in
    if ltb (now - s.inserted_at) skip_key_ttl then s ∷ others else others

-- The source's placeholder: the position is always 0.
pub recv_packet_index_in_epoch : DoubleRatchet → ℕ
recv_packet_index_in_epoch r = 0

module _ (derive_key : String → List ℕ → List ℕ) where
  pub next_chain_key : List ℕ → List ℕ
  next_chain_key chain_key = derive_key "seam ratchet chain 2026" (chain_key ++ (1 ∷ []))

  pub message_key : List ℕ → List ℕ
  message_key chain_key = derive_key "seam ratchet message 2026" (chain_key ++ (2 ∷ []))

  pub derive_new_root : (old_root dh_output : List ℕ) → List ℕ
  derive_new_root old_root dh_output = derive_key "seam ratchet root 2026" (old_root ++ dh_output)

  pub new : ℕ → List ℕ → Bool → List ℕ → DoubleRatchet
  new now root_secret is_initiator ephemeral =
      let initiator = derive_key "seam ratchet initiator-send 2026" root_secret in
      let responder = derive_key "seam ratchet responder-send 2026" root_secret in
      record {
        root_key = root_secret;
        send_chain_key = if is_initiator then initiator else responder;
        recv_chain_key = if is_initiator then responder else initiator;
        send_epoch = 0;
        recv_epoch = 0;
        packets_in_epoch = 0;
        epoch_packet_limit = default_epoch_packet_limit;
        epoch_time_limit = default_epoch_time_limit;
        last_ratchet = now;
        our_ephemeral = ephemeral;
        their_ephemeral = replicate 32 0;
        skipped = [];
      }

  pub new_with_limits : ℕ → List ℕ → Bool → List ℕ → (packet_limit time_limit : ℕ) → DoubleRatchet
  unfolding new
  new_with_limits now root_secret is_initiator ephemeral packet_limit time_limit =
      record (new now root_secret is_initiator ephemeral) {
        epoch_packet_limit = packet_limit;
        epoch_time_limit = time_limit;
      }

  pub next_send_key : DoubleRatchet → List ℕ × DoubleRatchet
  unfolding next_chain_key message_key
  next_send_key r = (
    message_key r.send_chain_key,
    record r {
      send_chain_key = next_chain_key r.send_chain_key;
      packets_in_epoch = add64 r.packets_in_epoch 1;
    },
  )

  -- The loop that stores the keys of `n` packets from index `i` on.
  pub skip_keys : ℕ → ℕ → ℕ → ℕ → DoubleRatchet → DoubleRatchet
  unfolding next_chain_key message_key
  skip_keys zero now epoch i r = r
  skip_keys (suc n) now epoch i r =
      let entry : SkipEntry = record {
        epoch = epoch;
        index = i;
        key = message_key r.recv_chain_key;
        inserted_at = now;
      } in
      skip_keys n now epoch (i + 1) (record r {
        recv_chain_key = next_chain_key r.recv_chain_key;
        skipped =
            if ltb (length r.skipped) max_skip
            then entry ∷ remove_skipped epoch i r.skipped
            else r.skipped;
      })

  -- From the search for a skipped key on; `r` has no expired ones.
  pub recv_key : ℕ → DoubleRatchet → ℕ → ℕ → Option (List ℕ) × DoubleRatchet
  unfolding skip_keys next_chain_key message_key find_skipped remove_skipped
      recv_packet_index_in_epoch
  recv_key now r epoch packet_index =
      let current_pos = recv_packet_index_in_epoch r in
      let skip_count = packet_index - current_pos in
      let r' = skip_keys skip_count now epoch current_pos r in
      elim (find_skipped epoch packet_index r.skipped) [
        | some key ↦ (some key, record r { skipped = remove_skipped epoch packet_index r.skipped })
        | none ↦
            if not (epoch == r.recv_epoch)
            then (none, r)
            else if ltb packet_index current_pos
            then (none, r)
            else if ltb max_skip skip_count
            then (none, r)
            else (
              some (message_key r'.recv_chain_key),
              record r' { recv_chain_key = next_chain_key r'.recv_chain_key },
            )
      ]

  pub next_recv_key : ℕ → DoubleRatchet → ℕ → ℕ → Option (List ℕ) × DoubleRatchet
  unfolding recv_key purge_expired
  next_recv_key now r epoch packet_index =
      recv_key now (record r { skipped = purge_expired now r.skipped }) epoch packet_index

  module _ (dh_exchange : List ℕ → List ℕ → List ℕ) (ephemeral_public : List ℕ → List ℕ) where
    pub apply_peer_ratchet_step : DoubleRatchet → RatchetStep → DoubleRatchet
    unfolding derive_new_root
    apply_peer_ratchet_step r s =
        let dh_out = dh_exchange r.our_ephemeral s.new_ephemeral_public in
        let new_root = derive_new_root r.root_key dh_out in
        record r {
          their_ephemeral = s.new_ephemeral_public;
          root_key = new_root;
          recv_chain_key = derive_key "seam ratchet recv-chain 2026" new_root;
          recv_epoch = s.epoch;
        }

    pub advance_send_ratchet : ℕ → List ℕ → DoubleRatchet → RatchetStep × DoubleRatchet
    unfolding derive_new_root
    advance_send_ratchet now new_ephemeral r =
        let dh_out = dh_exchange new_ephemeral r.their_ephemeral in
        let new_root = derive_new_root r.root_key dh_out in
        (
          record {
            new_ephemeral_public = ephemeral_public new_ephemeral;
            epoch = add64 r.send_epoch 1;
          },
          record r {
            root_key = new_root;
            send_chain_key = derive_key "seam ratchet send-chain 2026" new_root;
            our_ephemeral = new_ephemeral;
            send_epoch = add64 r.send_epoch 1;
            packets_in_epoch = 0;
            last_ratchet = now;
          },
        )
