-- ===== src/Session/Ack/Tracking.antt =====
-- src/session/ack.rs from the packets that arrive to the ranges that the peer reads.
use mathlib.Core.Path.{subst}
use seam.Prelude.{
  ℕ, suc, ◌-◌, ◌≤◌, ◌<◌, List, [], ◌∷◌, Option, none, some, Bool, true, false, ◌&&◌, ◌||◌, ◌≡◌,
  refl, sym, ap, ◌∙◌, arith, ltb, leb, if◌then◌else◌, length,
}
use seam.Prelude.Bytes.{u16_mod, u64_mod}
use seam.Session.Ack.{
  AckRanges, new, ack_retain_window, is_nil, set_insert, split_off, prune_below, on_received, walk,
  put_frame, build_frame, delay_since, parse_ack_frame, has_pending_ack,
}
use seam.Session.Ack.Numbers.{
  mem, Below, AtLeast, covered, mem-set_insert, set_insert-Below, mem-split_off, Below-mono,
  split_off-Below, split_off-AtLeast, length_le, Walked, walk-Walked, head_lem,
}
use seam.Session.Ack.Frame.{parse_ack_frame-put_frame}

-- A set `r` whose largest element is `l`, after the numbers of `seen` have arrived: it holds those that
-- are at most 8192 below the largest.
pub record Tracks (r : List ℕ) (l : ℕ) (seen : List ℕ) : Type 0 where
  pub below : Below (suc l) r
  pub recent : AtLeast (l - ack_retain_window) r
  pub largest : mem l r ≡ true
  pub exact : (n : ℕ) → mem n r ≡ (mem n seen && leb (l - ack_retain_window) n)
  pub top : (n : ℕ) → mem n seen ≡ true → n ≤ l
  pub bound : l < u64_mod

abbrev pub IsTracking : AckRanges → List ℕ → Type 0
IsTracking a seen = Tracks a.received a.largest_received seen

mem-is_nil : (n : ℕ) (xs : List ℕ) → mem n xs ≡ true → is_nil xs ≡ false
mem-is_nil n [] h = absurd (ground arith)
mem-is_nil n (x ∷ xs) h = refl

-- One number more, where `l'` is the larger of it and the largest so far.
push :
    (r seen : List ℕ) (l l' pn : ℕ)
    → Tracks r l seen
    → l' ≡ (if ltb l pn then pn else l)
    → pn < u64_mod
    → Tracks (split_off (l' - ack_retain_window) (set_insert pn r)) l' (pn ∷ seen)
push r seen l l' pn t e h = record {
  below = split_off-Below (suc l') (l' - ack_retain_window) (set_insert pn r) (
      set_insert-Below (suc l') pn r (ground arith)
        (Below-mono (suc l) (suc l') r (ground arith) t.below));
  recent = split_off-AtLeast (l' - ack_retain_window) (set_insert pn r);
  largest =
      mem-split_off l' (l' - ack_retain_window) (set_insert pn r)
      ∙ ground (arith, mem-set_insert l' pn r, t.largest);
  exact = λ n.
      mem-split_off n (l' - ack_retain_window) (set_insert pn r)
      ∙ ground (arith, mem-set_insert n pn r, t.exact n);
  top = λ n m. ground (arith, t.top n);
  bound = ground (arith, t.bound);
}

on_received-Tracks :
    (now pn : ℕ) (eliciting : Bool) (a : AckRanges) (seen : List ℕ)
    → pn < u64_mod
    → IsTracking a seen
    → IsTracking (on_received now a pn eliciting) (pn ∷ seen)
unfolding on_received prune_below
on_received-Tracks now pn eliciting a seen h t =
    rw (mem-is_nil a.largest_received a.received t.largest)
      (push a.received seen a.largest_received _ pn t (ground arith) h)

first_lem :
    (pn : ℕ)
    → pn < u64_mod
    → Tracks (if leb (pn - ack_retain_window) pn then pn ∷ [] else []) pn (pn ∷ [])
first_lem pn h = rw (kept pn) (record {
  below = (omega arith, tt);
  recent = (omega arith, tt);
  largest = ground arith;
  exact = λ n. ground arith;
  top = λ n m. ground arith;
  bound = h;
})
  where
    kept : (n : ℕ) → leb (n - ack_retain_window) n ≡ true
    kept n = ground arith

on_received-first :
    (now pn : ℕ) (eliciting : Bool)
    → pn < u64_mod
    → IsTracking (on_received now new pn eliciting) (pn ∷ [])
unfolding on_received prune_below new set_insert split_off
on_received-first now pn eliciting h = rw (or_true (ltb 0 pn)) (first_lem pn h)
  where
    or_true : (b : Bool) → (b || true) ≡ true
    or_true true = refl
    or_true false = refl

-- A packet that arrives: when, its number, and whether it calls for an acknowledgement.
abbrev pub Arrival : Type 0
Arrival = ℕ × ℕ × Bool

-- The numbers, and the state, after arrivals listed from the last to the first.
abbrev pub numbers : List Arrival → List ℕ
numbers [] = []
numbers ((now, pn, eliciting) ∷ earlier) = pn ∷ numbers earlier

abbrev pub after : List Arrival → AckRanges
after [] = new
after ((now, pn, eliciting) ∷ earlier) = on_received now (after earlier) pn eliciting

abbrev pub Fit : List ℕ → Type 0
Fit [] = Unit
Fit (pn ∷ pns) = (pn < u64_mod) × Fit pns

after-Tracks :
    (last : Arrival) (earlier : List Arrival)
    → Fit (numbers (last ∷ earlier))
    → IsTracking (after (last ∷ earlier)) (numbers (last ∷ earlier))
after-Tracks (now, pn, eliciting) [] (h, f) = on_received-first now pn eliciting h
after-Tracks (now, pn, eliciting) (before ∷ earlier) (h, f) =
    on_received-Tracks now pn eliciting (after (before ∷ earlier)) (numbers (before ∷ earlier)) h
      (after-Tracks before earlier f)

delay_since-lt : (now : ℕ) (t : Option ℕ) → delay_since now t < u64_mod
delay_since-lt now none = omega arith
delay_since-lt now (some t) = omega arith

-- What the peer reads in the frame: the largest number, the delay, and ranges.
abbrev pub Reads : ℕ → AckRanges → (List (ℕ × ℕ)) → Type 0
Reads now a ranges =
    parse_ack_frame (build_frame now a).0
    ≡ some (a.largest_received, delay_since now a.largest_received_at, ranges)

frame_lem :
    (x : ℕ) (xs : List ℕ) (l delay : ℕ) (seen : List ℕ)
    → delay < u64_mod
    → Tracks (x ∷ xs) l seen
    → (parse_ack_frame (put_frame x delay (walk xs x x)) ≡ some (l, delay, walk xs x x))
      × ((n : ℕ) → covered n (walk xs x x) ≡ mem n (x ∷ xs))
frame_lem x xs l delay seen hd t = (
  rw w.made (
      parse_ack_frame-put_frame x delay w.start w.extra small hd few w.within w.descending
      ∙ ap (λ k. some (k, delay, (w.start, x) ∷ w.extra)) (head_lem l x xs t.below t.largest)),
  λ n. w.exact n ∙ ground arith,
)
  where
    small : x < u64_mod
    small = omega (arith, t.bound, t.below)

    w : Walked xs x x (walk xs x x)
    w = walk-Walked xs x x (omega arith) small t.below.1

    few : length w.extra < u16_mod
    few = omega (arith, w.few, length_le x (l - ack_retain_window) xs t.below.1 t.recent.1, t.below)

build_frame-some :
    (now : ℕ) (a : AckRanges) (x : ℕ) (xs : List ℕ)
    → a.received ≡ x ∷ xs
    → (build_frame now a).0 ≡ put_frame x (delay_since now a.largest_received_at) (walk xs x x)
unfolding build_frame
build_frame-some now a x xs h = rw (h, build_frame) refl

build_frame-Reads :
    (now : ℕ) (a : AckRanges) (seen : List ℕ)
    → IsTracking a seen
    → (ranges : List (ℕ × ℕ)) × Reads now a ranges × ((n : ℕ) → covered n ranges ≡ mem n a.received)
build_frame-Reads now a seen t = by_set a.received refl
  where
    by_set :
        (r : List ℕ)
        → a.received ≡ r
        → (ranges : List (ℕ × ℕ)) × Reads now a ranges
          × ((n : ℕ) → covered n ranges ≡ mem n a.received)
    by_set [] e = absurd (ground (arith, t.largest, ap (mem a.largest_received) e))
    by_set (x ∷ xs) e =
        let (parsed, exact) =
          frame_lem x xs a.largest_received (delay_since now a.largest_received_at) seen
            (delay_since-lt now a.largest_received_at)
            (subst (λ r. Tracks r a.largest_received seen) e t) in
        (
          walk xs x x,
          ap parse_ack_frame (build_frame-some now a x xs e) ∙ parsed,
          λ n. exact n ∙ sym (ap (mem n) e),
        )

-- The frame's largest number has arrived.
pub build_frame-largest :
    (now : ℕ) (last : Arrival) (earlier : List Arrival)
    → Fit (numbers (last ∷ earlier))
    → (ranges : List (ℕ × ℕ)) × (largest : ℕ) × (delay : ℕ) × (parse_ack_frame
          (build_frame now (after (last ∷ earlier))).0
        ≡ some (largest, delay, ranges))
      × ((n : ℕ) → covered n ranges ≡ (mem n (numbers (last ∷ earlier)) && leb (largest - 8192) n))
      × ((n : ℕ) → mem n (numbers (last ∷ earlier)) ≡ true → n ≤ largest)
      × (mem largest (numbers (last ∷ earlier)) ≡ true)
build_frame-largest now last earlier f =
    let t = after-Tracks last earlier f in
    let (ranges, parsed, exact) =
      build_frame-Reads now (after (last ∷ earlier)) (numbers (last ∷ earlier)) t in
    (
      ranges,
      (after (last ∷ earlier)).largest_received,
      _,
      parsed,
      (λ n. exact n ∙ t.exact n),
      t.top,
      both _ _ (sym (t.exact (after (last ∷ earlier)).largest_received) ∙ t.largest),
    )
  where
    both : (a b : Bool) → (a && b) ≡ true → a ≡ true
    both true b h = refl
    both false b h = absurd (cc h)

-- After any arrivals with numbers of 64 bits, the last of them `last`, the frame that `build_frame`
-- makes is parsed to ranges that cover exactly the numbers that have arrived and are at most 8192
-- below the largest of them, which is the largest number that the frame names.
pub build_frame-exact :
    (now : ℕ) (last : Arrival) (earlier : List Arrival)
    → Fit (numbers (last ∷ earlier))
    → (ranges : List (ℕ × ℕ)) × (largest : ℕ) × (delay : ℕ) × (parse_ack_frame
          (build_frame now (after (last ∷ earlier))).0
        ≡ some (largest, delay, ranges))
      × ((n : ℕ) → covered n ranges ≡ (mem n (numbers (last ∷ earlier)) && leb (largest - 8192) n))
      × ((n : ℕ) → mem n (numbers (last ∷ earlier)) ≡ true → n ≤ largest)
build_frame-exact now last earlier f =
    let (ranges, largest, delay, parsed, exact, top, arrived) =
      build_frame-largest now last earlier f in
    (ranges, largest, delay, parsed, exact, top)

pub on_received-pending :
    (now : ℕ) (a : AckRanges) (pn : ℕ) → (on_received now a pn true).ack_pending ≡ true
unfolding on_received prune_below
on_received-pending now a pn = refl

pub pending-build_frame : (now : ℕ) (a : AckRanges) → (build_frame now a).1.ack_pending ≡ false
unfolding build_frame
pending-build_frame now a = by_set a.received refl
  where
    by_set : (r : List ℕ) → a.received ≡ r → (build_frame now a).1.ack_pending ≡ false
    by_set [] e = rw (e, build_frame) refl
    by_set (x ∷ xs) e = rw (e, build_frame) refl

pub has_pending_ack_lem : (a : AckRanges) → has_pending_ack a ≡ a.ack_pending
unfolding has_pending_ack
has_pending_ack_lem a = refl
