-- ===== src/Transport/Probe.antt =====
-- src/transport/probe.rs: the binary search for the MTU of a path, and the count of timeouts that
-- leads to a migration. Instants are nanoseconds and `now` is what `Instant::now()` gives; `now_us` is
-- the time of the wall clock in microseconds.
pub mod Steps
pub mod Search
pub mod Silence
mod Tests
use seam.Prelude.{
  ℕ, ◌+◌, ◌-◌, ◌*◌, ◌/◌, ◌%◌, max, List, [], ◌∷◌, Option, none, some, Bool, true, false, ◌&&◌, ◌||◌,
  not, leb, ltb, ◌==◌, if◌then◌else◌, length, replicate,
}
use seam.Prelude.Bytes.{u32_mod, to_le, from_le, slice}
use seam.Prelude.Splice.{write_at}
use seam.Prelude.Map.{Map, lookup, insert, remove}
use seam.Prelude.Words.{add64, sub64}

abbrev pub min_mtu : ℕ
min_mtu = 1280

abbrev pub max_mtu : ℕ
max_mtu = 1500

abbrev pub probe_interval : ℕ
probe_interval = 5_000_000_000

abbrev pub probe_timeout : ℕ
probe_timeout = 2_000_000_000

abbrev pub migration_threshold : ℕ
migration_threshold = 3

abbrev pub probe_hdr : ℕ
probe_hdr = 16

pub record PendingProbe : Type 0 where
  pub sent_at : ℕ
  pub probe_size : ℕ

pub record PathProber : Type 0 where
  pub next_probe : ℕ
  pub pending : Map PendingProbe
  pub next_id : ℕ
  pub path_mtu : ℕ
  pub mtu_lo : ℕ
  pub mtu_hi : ℕ
  pub probing_mtu : Bool
  pub consecutive_timeouts : ℕ

pub new : ℕ → PathProber
new now = record {
  next_probe = now;
  pending = [];
  next_id = 0;
  path_mtu = min_mtu;
  mtu_lo = min_mtu;
  mtu_hi = max_mtu;
  probing_mtu = true;
  consecutive_timeouts = 0;
}

pub should_probe : ℕ → PathProber → Bool
should_probe now p = leb p.next_probe now

pub time_until_next : ℕ → PathProber → ℕ
time_until_next now p = p.next_probe - now

-- The size of the next probe: the middle of the range, or that of a keepalive.
pub next_size : PathProber → ℕ
next_size p = if p.probing_mtu then (p.mtu_lo + p.mtu_hi) / 2 else probe_hdr

pub probe_payload : ℕ → ℕ → ℕ → List ℕ
probe_payload size id now_us =
    write_at 8 (to_le 8 now_us) (write_at 0 (to_le 8 id) (replicate (max size probe_hdr) 0))

-- The identifier, the payload, and the prober.
pub build_probe : ℕ → ℕ → PathProber → (ℕ × List ℕ) × PathProber
unfolding next_size probe_payload
build_probe now now_us p =
    let size = next_size p in
    (
      (p.next_id, probe_payload size p.next_id now_us),
      record p {
        next_id = add64 p.next_id 1;
        pending = insert p.next_id (record { sent_at = now; probe_size = size }) p.pending;
        next_probe = now + probe_interval;
      },
    )

-- "MTU probe succeeded: this size is reachable". The difference of the bounds wraps.
pub note_reached : PathProber → ℕ → PathProber
note_reached p size =
    let p' = record p { mtu_lo = size } in
    if not p.probing_mtu
    then p
    else if leb (sub64 p.mtu_hi size) 16
    then record p' { path_mtu = size; probing_mtu = false }
    else p'

pub on_echo : ℕ → PathProber → List ℕ → Option ℕ × PathProber
unfolding note_reached
on_echo now p payload =
    let id = from_le (slice payload 0 8) in
    if ltb (length payload) probe_hdr then (none, p) else elim (lookup id p.pending) [
      | none ↦ (none, p)
      | some probe ↦ (
        some (now - probe.sent_at),
        note_reached (record p { pending = remove id p.pending; consecutive_timeouts = 0 })
            probe.probe_size,
      )
    ]

abbrev pub timed_out : ℕ → PendingProbe → Bool
timed_out now probe = leb probe_timeout (now - probe.sent_at)

-- What the closure of `retain` notes, and what it keeps.
abbrev pub mtu_loss : ℕ → Map PendingProbe → Bool
mtu_loss now [] = false
mtu_loss now ((id, probe) ∷ m) =
    (timed_out now probe && ltb probe_hdr probe.probe_size) || mtu_loss now m

abbrev pub keepalive_loss : ℕ → Map PendingProbe → Bool
keepalive_loss now [] = false
keepalive_loss now ((id, probe) ∷ m) =
    (timed_out now probe && leb probe.probe_size probe_hdr) || keepalive_loss now m

abbrev pub still_pending : ℕ → Map PendingProbe → Map PendingProbe
still_pending now [] = []
still_pending now ((id, probe) ∷ m) =
    let rest = still_pending now m in if timed_out now probe then rest else (id, probe) ∷ rest

abbrev saturating_inc : ℕ → ℕ
saturating_inc n = if leb (u32_mod - 1) n then u32_mod - 1 else n + 1

-- "Probe at this size failed: search lower half"
pub expire_timeouts : ℕ → PathProber → Bool × PathProber
expire_timeouts now p =
    let lost = mtu_loss now p.pending in
    (
      lost,
      record p {
        pending = still_pending now p.pending;
        consecutive_timeouts =
            if keepalive_loss now p.pending
            then saturating_inc p.consecutive_timeouts
            else p.consecutive_timeouts;
        mtu_hi = if lost && p.probing_mtu then (p.mtu_lo + p.mtu_hi) / 2 else p.mtu_hi;
      },
    )

pub should_migrate : PathProber → Bool
should_migrate p = leb migration_threshold p.consecutive_timeouts

pub reset_migration_state : PathProber → PathProber
reset_migration_state p = record p { consecutive_timeouts = 0 }
