-- ===== src/Transport/Probe/Search.antt =====
-- The search of src/transport/probe.rs for the MTU of a path.
use native.Mathlib.Nat.{pow-suc}
use seam.Prelude.{
  ℕ, zero, suc, ◌+◌, ◌-◌, ◌/◌, ◌^◌, ◌≤◌, ◌<◌, max, List, [], ◌∷◌, true, false, ◌≡◌, ◌⊎◌, inl, inr,
  refl, ap, ◌∙◌, arith, leb, ltb, if◌then◌else◌, Bool-cases, length, leb→le,
}
use seam.Prelude.Bytes.{u64_mod}
use seam.Prelude.Words.{sub64}
use seam.Transport.Probe.{
  PathProber, new, next_size, probe_payload, build_probe, note_reached, on_echo, expire_timeouts,
}
use seam.Transport.Probe.Steps.{
  payload_id, length-probe_payload, on_echo-some, lookup_one, remove_one, probing, build_probe_lem,
}

-- A round on a path that carries payloads of up to `mtu` bytes: a probe is sent at `now`; it is echoed
-- if the path carries it, and otherwise found to have timed out two seconds later.
unfoldable pub round : ℕ → ℕ → ℕ → PathProber → PathProber
round mtu now now_us p =
    let ((id, payload), p') = build_probe now now_us p in
    if leb (length payload) mtu
    then (on_echo now p' payload).1
    else (expire_timeouts (now + 2_000_000_000) p').1

-- A round for each pair of a time and a time of the wall clock.
unfoldable pub rounds : ℕ → List (ℕ × ℕ) → PathProber → PathProber
unfolding round
rounds mtu [] p = p
rounds mtu ((now, now_us) ∷ times) p = rounds mtu times (round mtu now now_us p)

-- The search has ended with a size that the path carries, at most 16 below the largest one that it
-- carries or that is tried.
pub record Converged (mtu : ℕ) (p : PathProber) : Type 0 where
  pub done : p.probing_mtu ≡ false
  pub none_left : p.pending ≡ []
  pub word : p.next_id < u64_mod
  pub carried : p.path_mtu ≤ mtu
  pub near : (mtu ≤ p.path_mtu + 16) ⊎ (1500 ≤ p.path_mtu + 16)

-- The search goes on in a range of the given width.
pub record Searching (mtu w : ℕ) (p : PathProber) : Type 0 where
  pub active : p.probing_mtu ≡ true
  pub none_left : p.pending ≡ []
  pub word : p.next_id < u64_mod
  pub range : p.mtu_lo + w ≡ p.mtu_hi
  pub small : p.mtu_hi ≤ 1500
  pub large : 1280 ≤ p.mtu_lo
  pub below : p.mtu_lo ≤ mtu
  pub above : (mtu < p.mtu_hi) ⊎ (p.mtu_hi ≡ 1500)

module _ (mtu now now_us : ℕ) (p : PathProber) (none_ : p.pending ≡ [])
    (word : p.next_id < u64_mod) where
  -- The prober after an echo, before the size is noted.
  abbrev echoed : PathProber
  echoed = record (probing now p) { pending = []; consecutive_timeouts = 0 }

  round_reaches :
      max (next_size p) 16 ≤ mtu → round mtu now now_us p ≡ note_reached echoed (next_size p)
  unfolding round
  round_reaches h =
      rw (build_probe_lem now now_us p none_, round)
        (rw
          (carries (length (probe_payload (next_size p) p.next_id now_us))
            (omega (arith, length-probe_payload (next_size p) p.next_id now_us)))
          (on_echo-some now (probing now p) _ p.next_id _
              (omega (arith, length-probe_payload (next_size p) p.next_id now_us))
              (payload_id (next_size p) p.next_id now_us word) (lookup_one p.next_id _)
            ∙ ap (λ m. note_reached (record echoed { pending = m }) (next_size p))
                (remove_one p.next_id _)))
    where
      carries : (n : ℕ) → n ≤ mtu → leb n mtu ≡ true
      carries n h = ground arith

  round_fails :
      mtu < max (next_size p) 16
      → round mtu now now_us p ≡ (expire_timeouts (now + 2_000_000_000) (probing now p)).1
  unfolding round
  round_fails h =
      rw (build_probe_lem now now_us p none_, round)
        (rw
          (drops (length (probe_payload (next_size p) p.next_id now_us))
            (omega (arith, length-probe_payload (next_size p) p.next_id now_us)))
          refl)
    where
      drops : (n : ℕ) → mtu < n → leb n mtu ≡ false
      drops n h = ground arith

next_size_active : (p : PathProber) → p.probing_mtu ≡ true → next_size p ≡ (p.mtu_lo + p.mtu_hi) / 2
unfolding next_size
next_size_active p h = rw (h, next_size) refl

next_size_done : (p : PathProber) → p.probing_mtu ≡ false → next_size p ≡ 16
unfolding next_size
next_size_done p h = rw (h, next_size) refl

-- What noting a size does, on each branch.
module _ (p : PathProber) (size : ℕ) where
  reached_done : p.probing_mtu ≡ false → note_reached p size ≡ p
  unfolding note_reached
  reached_done h = rw (h, note_reached) refl

  reached_near :
      p.probing_mtu ≡ true
      → leb (sub64 p.mtu_hi size) 16 ≡ true
      → note_reached p size ≡ record p { mtu_lo = size; path_mtu = size; probing_mtu = false }
  unfolding note_reached
  reached_near h k = rw (h, note_reached) (rw k refl)

  reached_far :
      p.probing_mtu ≡ true
      → leb (sub64 p.mtu_hi size) 16 ≡ false
      → note_reached p size ≡ record p { mtu_lo = size }
  unfolding note_reached
  reached_far h k = rw (h, note_reached) (rw k refl)

-- Where a round takes a search of the width `w`.
abbrev Next : ℕ → ℕ → PathProber → Type 0
Next mtu w q = Converged mtu q ⊎ ((w' : ℕ) × Searching mtu w' q × (2 ≤ w) × (w' ≤ (w + 1) / 2))

module _ (mtu now now_us w : ℕ) (p : PathProber) (s : Searching mtu w p) where
  size : ℕ
  size = next_size p

  size_lem : size ≡ p.mtu_lo + w / 2
  unfolding size
  size_lem = omega (arith, next_size_active p s.active, s.range)

  gap : sub64 p.mtu_hi size ≡ w - w / 2
  gap = omega (arith, size_lem, s.range, s.small)

  abbrev heard : PathProber
  heard = echoed mtu now now_us p s.none_left s.word

  echo-Next : size ≤ mtu → Next mtu w (note_reached heard size)
  echo-Next h = elim (Bool-cases (leb (sub64 p.mtu_hi size) 16)) [
    | inl near ↦ rw (reached_near heard size s.active near) (
        inl (record {
          done = refl;
          none_left = refl;
          word = omega arith;
          carried = h;
          near = elim s.above [
            | inl more ↦ inl (omega (arith, close near, size_lem, s.range))
            | inr top ↦ inr (omega (arith, close near, size_lem, s.range))
          ];
        }))
    | inr far ↦ rw (reached_far heard size s.active far) (
        inr (
          w - w / 2,
          record {
            active = s.active;
            none_left = refl;
            word = omega arith;
            range = omega (arith, size_lem, s.range);
            small = s.small;
            large = omega (arith, size_lem, s.large);
            below = h;
            above = s.above;
          },
          omega (arith, wide far),
          omega arith,
        ))
  ]
    where
      close : leb (sub64 p.mtu_hi size) 16 ≡ true → w - w / 2 ≤ 16
      close h = omega (arith, leb→le _ 16 h, gap)

      not_leb : (a b : ℕ) → leb a b ≡ false → b < a
      not_leb a b h = ground arith

      wide : leb (sub64 p.mtu_hi size) 16 ≡ false → 16 < w - w / 2
      wide h = omega (arith, not_leb _ 16 h, gap)

  -- The probe has timed out, and the upper half is given up.
  abbrev given_up : PathProber
  given_up = record (probing now p) { pending = []; mtu_hi = (p.mtu_lo + p.mtu_hi) / 2 }

  given_up_lem : 16 < size → (expire_timeouts (now + 2_000_000_000) (probing now p)).1 ≡ given_up
  unfolding expire_timeouts size
  given_up_lem h =
      rw (late now) (rw (larger (next_size p) h) (rw (smaller (next_size p) h) (rw s.active refl)))
    where
      late : (t : ℕ) → leb 2_000_000_000 (t + 2_000_000_000 - t) ≡ true
      late t = ground arith

      larger : (n : ℕ) → 16 < n → ltb 16 n ≡ true
      larger n h = ground arith

      smaller : (n : ℕ) → 16 < n → leb n 16 ≡ false
      smaller n h = ground arith

  fail-Next : mtu < size → Next mtu w given_up
  fail-Next h = inr (
    w / 2,
    record {
      active = s.active;
      none_left = refl;
      word = omega arith;
      range = omega (arith, s.range);
      small = omega (arith, s.range, s.small);
      large = s.large;
      below = s.below;
      above = inl (omega (arith, size_lem, s.range));
    },
    omega (arith, size_lem, s.below),
    omega arith,
  )

  round-Next : Next mtu w (round mtu now now_us p)
  unfolding size
  round-Next = elim (Bool-cases (leb size mtu)) [
    | inl fits ↦
        rw
          (round_reaches mtu now now_us p s.none_left s.word
            (omega (arith, leb→le size mtu fits, big)))
          (echo-Next (leb→le size mtu fits))
    | inr large ↦
        rw
          (round_fails mtu now now_us p s.none_left s.word
            (omega (arith, not_leb size mtu large, big)))
          (rw (given_up_lem (omega (arith, big))) (fail-Next (not_leb size mtu large)))
  ]
    where
      not_leb : (a b : ℕ) → leb a b ≡ false → b < a
      not_leb a b h = ground arith

      big : 1280 ≤ size
      big = omega (arith, size_lem, s.large)

module _ (mtu : ℕ) (enough : 1280 ≤ mtu) where
  -- A round after the search leaves what it has found.
  round-Converged :
      (now now_us : ℕ) (p : PathProber) → Converged mtu p → Converged mtu (round mtu now now_us p)
  round-Converged now now_us p c =
      rw
        (round_reaches mtu now now_us p c.none_left c.word (omega (arith, next_size_done p c.done)))
        (rw (reached_done (echoed mtu now now_us p c.none_left c.word) (next_size p) c.done)
          (record {
            done = c.done;
            none_left = refl;
            word = omega arith;
            carried = c.carried;
            near = c.near;
          }))

  rounds-Converged :
      (times : List (ℕ × ℕ)) (p : PathProber) → Converged mtu p → Converged mtu (rounds mtu times p)
  unfolding rounds
  rounds-Converged [] p c = c
  rounds-Converged ((now, now_us) ∷ times) p c =
      rounds-Converged times (round mtu now now_us p) (round-Converged now now_us p c)

  -- A width of at most `2 ^ k` is searched in `k + 1` rounds.
  rounds-Searching :
      (k w : ℕ) (times : List (ℕ × ℕ)) (p : PathProber)
      → Searching mtu w p
      → w ≤ 2 ^ k
      → k < length times
      → Converged mtu (rounds mtu times p)
  unfolding rounds
  rounds-Searching k w [] p s h l = absurd (omega arith)
  rounds-Searching zero w ((now, now_us) ∷ times) p s h l = elim (round-Next mtu now now_us w p s) [
    | inl c ↦ rounds-Converged times _ c
    | inr (w', s', two, half) ↦ absurd (omega arith)
  ]
  rounds-Searching (suc k) w ((now, now_us) ∷ times) p s h l =
      elim (round-Next mtu now now_us w p s) [
        | inl c ↦ rounds-Converged times _ c
        | inr (w', s', two, half) ↦
            rounds-Searching k w' times _ s' (omega (arith, pow-suc 2 k)) (omega arith)
      ]

new-Searching : (mtu now : ℕ) → 1280 ≤ mtu → Searching mtu 220 (new now)
unfolding new
new-Searching mtu now h = record {
  active = refl;
  none_left = refl;
  word = omega arith;
  range = omega arith;
  small = omega arith;
  large = omega arith;
  below = h;
  above = inr refl;
}

-- On a path that carries payloads of up to `mtu` bytes, of at least the smallest MTU, a new prober
-- has ended its search after nine rounds of a probe and its echo or timeout, whenever they take
-- place, and keeps in further rounds what it has found: a size that the path carries, and at most
-- 16 below the largest one that it carries, or at most 16 below 1500.
pub rounds-new :
    (mtu start : ℕ) (times : List (ℕ × ℕ))
    → 1280 ≤ mtu
    → 9 ≤ length times
    → Converged mtu (rounds mtu times (new start))
rounds-new mtu start times enough many =
    rounds-Searching mtu enough 8 220 times (new start) (new-Searching mtu start enough)
      (omega arith) (omega arith)
