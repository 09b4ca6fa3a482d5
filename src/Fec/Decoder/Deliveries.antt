-- ===== src/Fec/Decoder/Deliveries.antt =====
-- The decoder of src/fec/codec.rs, as the packets of a group arrive in any order.
use seam.Prelude.{
  ℕ, ◌+◌, ◌≤◌, List, [], ◌∷◌, ◌++◌, Option, Bool, ◌≡◌, none, some, refl, sym, ap, ◌∙◌, arith, true,
  false, ◌==◌, ◌||◌, length, get_or,
}
use seam.Prelude.Map.{lookup, insert, lookup-insert}
use mathlib.Core.List.{append-nil, append_assoc}
use mathlib.Core.Path.{subst}
use seam.Fec.Decoder.{
  Rows, GroupState, new_group, FecDecoder, new, add_source, add_repair, stored, try_recover,
}
use seam.Fec.Decoder.Rows.{Shape}
use seam.Fec.Decoder.Building.{IsRepair}
use seam.Fec.Decoder.Missing.{Contents}
use seam.Fec.Decoder.Groups.{Sources, gained, Sound, try_recover-Sound, source-Sound, repair-Sound}
use seam.Fec.Decoder.Taking.{
  Delivery, source, repair, Belongs, AllBelong, group, with_source, with_repair, add_source_lem,
  add_repair_lem,
}

module _ (group_id k r : ℕ) where
  pub deliver : FecDecoder → Delivery → Option (Option Sources × FecDecoder)
  deliver d (source i payload) = add_source d group_id i k r payload
  deliver d (repair packet) = add_repair d packet

  then_rest :
      Option (Option Sources × FecDecoder)
      → (FecDecoder → Option (Sources × FecDecoder))
      → Option (Sources × FecDecoder)
  then_rest none rest = none
  then_rest (some (out, d)) rest = elim (rest d) [
    | none ↦ none
    | some (more, d') ↦ some (gained out ++ more, d')
  ]

  -- The sources that the decoder gives out while the packets arrive, and the decoder after them.
  pub deliver_all : FecDecoder → List Delivery → Option (Sources × FecDecoder)
  deliver_all d [] = some ([], d)
  deliver_all d (p ∷ ps) = then_rest (deliver d p) (λ d'. deliver_all d' ps)

abbrev pub is_some : Option (List ℕ) → Bool
is_some none = false
is_some (some d) = true

-- Whether the source `i`, or the repair symbol `i`, is among the packets.
abbrev pub arrived : List Delivery → ℕ → Bool
arrived [] i = false
arrived (source j payload ∷ ps) i = (j == i) || arrived ps i
arrived (repair packet ∷ ps) i = arrived ps i

abbrev pub repaired : List Delivery → ℕ → Bool
repaired [] i = false
repaired (source j payload ∷ ps) i = repaired ps i
repaired (repair packet ∷ ps) i = (packet.repair_idx == i) || repaired ps i

in_front : (a b c : Bool) → (b || ((a || false) || c)) ≡ ((a || b) || c)
in_front true true c = refl
in_front true false c = refl
in_front false true c = refl
in_front false false c = refl

arrived_more :
    (p : Delivery) (ps : List Delivery) (i : ℕ) (c : Bool)
    → (arrived ps i || (arrived (p ∷ []) i || c)) ≡ (arrived (p ∷ ps) i || c)
arrived_more (source j payload) ps i c = in_front (j == i) (arrived ps i) c
arrived_more (repair packet) ps i c = in_front false (arrived ps i) c

repaired_more :
    (p : Delivery) (ps : List Delivery) (i : ℕ) (c : Bool)
    → (repaired ps i || (repaired (p ∷ []) i || c)) ≡ (repaired (p ∷ ps) i || c)
repaired_more (source j payload) ps i c = in_front false (repaired ps i) c
repaired_more (repair packet) ps i c = in_front (packet.repair_idx == i) (repaired ps i) c

module _ (group_id k r w : ℕ) (sources : Rows) (shape : Shape k w sources) (room : r + k ≤ 255)
    (positive : 1 ≤ k) where
  abbrev pub here : FecDecoder → GroupState
  here = group group_id k r w sources shape

  -- The group of the decoder, with what it has given out.
  pub record Tracks (g : GroupState) (had : Sources) : Type 0 where
    pub k_same : g.k ≡ k
    pub r_same : g.r ≡ r
    pub sound : Sound w sources g had
    pub full : k ≤ length g.sources + length g.repairs → g.recovered ≡ true

  pub new-Tracks : Tracks (here new) []
  unfolding new new_group group
  new-Tracks = record {
    k_same = refl;
    r_same = refl;
    sound = record {
      received = record {
        shape = shape;
        room = room;
        sources_up = tt;
        repairs_up = tt;
        each_source = λ i d e. cc;
        each_repair = λ i d e. cc;
      };
      len = refl;
      right = tt;
      done = λ e. cc;
    };
    full = λ h. absurd (omega (arith, h, positive));
  }

  -- One packet is taken without a panic, and is then held.
  Step : FecDecoder → Sources → Delivery → Type 0
  Step d had p =
      (out : Option Sources) × (d' : FecDecoder) × (deliver group_id k r d p ≡ some (out, d'))
      × Tracks (here d') (had ++ gained out)
      × ((i : ℕ)
          → is_some (lookup i (here d').sources)
            ≡ (arrived (p ∷ []) i || is_some (lookup i (here d).sources)))
      × ((i : ℕ)
          → is_some (lookup i (here d').repairs)
            ≡ (repaired (p ∷ []) i || is_some (lookup i (here d).repairs)))

  stored_group :
      (d : FecDecoder) (g : GroupState)
      → here (record d { groups = insert group_id g d.groups }) ≡ g
  unfolding group
  stored_group d g = ground (arith, lookup-insert group_id group_id g d.groups)

  is_some-insert :
      (j i : ℕ) (x : List ℕ) (m : Contents)
      → is_some (lookup i (insert j x m)) ≡ ((j == i) || is_some (lookup i m))
  is_some-insert j i x m = ground (arith, lookup-insert j i x m)

  settled :
      (d : FecDecoder) (had : Sources) (p : Delivery) (g : GroupState)
      → deliver group_id k r d p ≡ stored d group_id (try_recover g)
      → g.k ≡ k
      → g.r ≡ r
      → Sound w sources g had
      → ((i : ℕ)
          → is_some (lookup i g.sources)
            ≡ (arrived (p ∷ []) i || is_some (lookup i (here d).sources)))
      → ((i : ℕ)
          → is_some (lookup i g.repairs)
            ≡ (repaired (p ∷ []) i || is_some (lookup i (here d).repairs)))
      → Step d had p
  unfolding Step
  settled d had p g taken k_same r_same s held held' =
      let (out, b, run, sound, full) = try_recover-Sound w sources g had s in
      let after = record g { recovered = b } in
      let now = stored_group d after in
      (
        out,
        record d { groups = insert group_id after d.groups },
        taken ∙ ap (stored d group_id) run,
        subst (λ x. Tracks x (had ++ gained out)) (sym now)
            (record {
              k_same = k_same;
              r_same = r_same;
              sound = sound;
              full = λ many. full (omega (arith, many, k_same));
            }),
        (λ i. ap (λ x. is_some (lookup i x.sources)) now ∙ held i),
        (λ i. ap (λ x. is_some (lookup i x.repairs)) now ∙ held' i),
      )

  deliver-Step :
      (d : FecDecoder) (had : Sources) (p : Delivery)
      → Tracks (here d) had
      → Belongs group_id k r w sources p
      → Step d had p
  unfolding deliver with_source with_repair group
  deliver-Step d had (source i payload) t (low, same) =
      settled d had (source i payload) (with_source group_id k r w sources shape d i)
        (add_source_lem group_id k r w sources shape d i payload t.sound.len low same) t.k_same
        t.r_same (source-Sound w sources (here d) had i t.sound (omega (arith, t.k_same)))
        (λ j. is_some-insert i j (get_or sources i []) (here d).sources ∙ ground arith) (λ j. refl)
  deliver-Step d had (repair packet) t b =
      settled d had (repair packet) (with_repair group_id k r w sources shape d packet)
        (add_repair_lem group_id k r w sources shape d packet t.sound.len b) t.k_same t.r_same
        (repair-Sound w sources (here d) had packet.repair_idx packet.contents t.sound (
          subst (λ u. IsRepair u (here d).r w sources packet.repair_idx packet.contents)
            (sym t.k_same)
            (subst (λ u. IsRepair k u w sources packet.repair_idx packet.contents) (sym t.r_same)
              b.4)))
        (λ j. refl)
        (λ j. is_some-insert packet.repair_idx j packet.contents (here d).repairs ∙ ground arith)

  -- All packets of a list are taken without a panic, and are then held.
  abbrev pub Run : FecDecoder → Sources → List Delivery → Type 0
  Run d had ps =
      (out : Sources) × (d' : FecDecoder) × (deliver_all group_id k r d ps ≡ some (out, d'))
      × Tracks (here d') (had ++ out)
      × ((i : ℕ)
          → is_some (lookup i (here d').sources)
            ≡ (arrived ps i || is_some (lookup i (here d).sources)))
      × ((i : ℕ)
          → is_some (lookup i (here d').repairs)
            ≡ (repaired ps i || is_some (lookup i (here d).repairs)))

  pub deliver_all-Run :
      (d : FecDecoder) (had : Sources) (ps : List Delivery)
      → Tracks (here d) had
      → AllBelong group_id k r w sources ps
      → Run d had ps
  unfolding Step deliver_all then_rest
  deliver_all-Run d had [] t h =
      ([], d, refl, subst (Tracks (here d)) (sym (append-nil had)) t, λ i. refl, λ i. refl)
  deliver_all-Run d had (p ∷ ps) t h =
      let (out, d1, step, t1, held, held') = deliver-Step d had p t h.0 in
      let (more, d2, run, t2, rest, rest') = deliver_all-Run d1 (had ++ gained out) ps t1 h.1 in
      (
        gained out ++ more,
        d2,
        rw (step, deliver_all) (rw (run, then_rest) refl),
        subst (Tracks (here d2)) (append_assoc had (gained out) more) t2,
        (λ i.
            rest i
            ∙ ap (λ b. arrived ps i || b) (held i)
            ∙ arrived_more p ps i (is_some (lookup i (here d).sources))),
        (λ i.
            rest' i
            ∙ ap (λ b. repaired ps i || b) (held' i)
            ∙ repaired_more p ps i (is_some (lookup i (here d).repairs))),
      )
