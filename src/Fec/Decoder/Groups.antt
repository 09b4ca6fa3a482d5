-- ===== src/Fec/Decoder/Groups.antt =====
-- A group of src/fec/codec.rs as its packets arrive.
use seam.Prelude.{
  ℕ, zero, suc, ◌+◌, ◌≤◌, ◌<◌, List, [], ◌∷◌, ◌++◌, Option, Bool, ◌≡◌, ◌||◌, ◌≢◌, ◌⊎◌, inl, inr,
  none, some, refl, sym, ap, ◌∙◌, arith, Bool-cases, ltb, Option-cases, true, ◌==◌, length, get_or,
}
use seam.Prelude.Map.{lookup, insert, lookup-insert, lookup-insert_inv, Above-insert}
use mathlib.Core.Path.{subst}
use mathlib.Core.List.{append-nil}
use seam.Fec.Decoder.{Rows, GroupState, missing_from, solved, try_recover}
use seam.Fec.Decoder.Building.{IsRepair}
use seam.Fec.Decoder.Missing.{Contents, missing_from-some, missing_from-none}
use seam.Fec.Decoder.System.{Received}
use seam.Fec.Decoder.Recovery.{try_recover-decides}

abbrev pub Sources : Type 0
Sources = List (ℕ × List ℕ)

abbrev pub gained : Option Sources → Sources
gained none = []
gained (some out) = out

-- Each source that was given out is the right one.
abbrev pub AreRight : Rows → Sources → Type 0
AreRight sources [] = Unit
AreRight sources ((i, d) ∷ out) = (d ≡ get_or sources i []) × AreRight sources out

abbrev pub Has : ℕ → Sources → Type 0
Has j [] = ⊥
Has j ((i, d) ∷ out) = (i ≡ j) ⊎ Has j out

AreRight-append :
    (sources : Rows) (a b : Sources)
    → AreRight sources a
    → AreRight sources b
    → AreRight sources (a ++ b)
AreRight-append sources [] b h k = k
AreRight-append sources ((i, d) ∷ a) b h k = (h.0, AreRight-append sources a b h.1 k)

Has-left : (j : ℕ) (a b : Sources) → Has j a → Has j (a ++ b)
Has-left j [] b h = absurd h
Has-left j ((i, d) ∷ a) b (inl e) = inl e
Has-left j ((i, d) ∷ a) b (inr h) = inr (Has-left j a b h)

Has-right : (j : ℕ) (a b : Sources) → Has j b → Has j (a ++ b)
Has-right j [] b h = h
Has-right j ((i, d) ∷ a) b h = inr (Has-right j a b h)

solved-AreRight : (sources : Rows) (xs : List ℕ) → AreRight sources (solved sources xs)
solved-AreRight sources [] = tt
solved-AreRight sources (x ∷ xs) = (refl, solved-AreRight sources xs)

solved-Has :
    (sources : Rows) (m : Contents) (n i : ℕ) (t : ℕ)
    → i ≤ t
    → t < i + n
    → lookup t m ≡ none
    → Has t (solved sources (missing_from m n i))
solved-Has sources m zero i t h l e = absurd (omega arith)
solved-Has sources m (suc n) i t h l e =
    let ih = λ (apart : i ≢ t). solved-Has sources m n (i + 1) t (ground arith) (omega arith) e in
    elim (Option-cases (lookup i m)) [
      | inl none_ ↦
          subst (λ xs. Has t (solved sources xs)) (sym (missing_from-none n i m none_))
            (elim (Bool-cases (i == t)) [
              | inl same ↦ inl (ground arith)
              | inr other ↦ inr (ih (ground arith))
            ])
      | inr (v, some_) ↦
          subst (λ xs. Has t (solved sources xs)) (sym (missing_from-some n i m v some_))
            (ih (λ same. absurd (ground (arith, e, some_, ap (λ u. lookup u m) same))))
    ]

inserted :
    (k j : ℕ) (v u : List ℕ) (m : Contents) → k ≡ j → lookup j (insert k v m) ≡ some u → u ≡ v
inserted k j v u m same found = ground (arith, lookup-insert k j v m)

-- The source `j` has arrived, or was given out.
abbrev pub Available : ℕ → GroupState → Sources → Type 0
Available j g had = ((d : List ℕ) × (lookup j g.sources ≡ some d)) ⊎ Has j had

-- A group whose packets are right, with what it has given out.
pub record Sound (w : ℕ) (sources : Rows) (g : GroupState) (had : Sources) : Type 0 where
  pub received : Received w sources g
  pub len : g.padded_len ≡ w
  pub right : AreRight sources had
  pub done : g.recovered ≡ true → (j : ℕ) → j < g.k → Available j g had

module _ (w : ℕ) (sources : Rows) where
  marked :
      (g : GroupState) (b : Bool)
      → Received w sources g
      → Received w sources (record g { recovered = b })
  marked g b s = record {
    shape = s.shape;
    room = s.room;
    sources_up = s.sources_up;
    repairs_up = s.repairs_up;
    each_source = s.each_source;
    each_repair = s.each_repair;
  }

  all_there :
      (g : GroupState) (had : Sources) (j : ℕ)
      → j < g.k
      → (lookup j g.sources ≡ none) ⊎ ((d : List ℕ) × (lookup j g.sources ≡ some d))
      → Available j g (had ++ solved sources (missing_from g.sources g.k 0))
  all_there g had j h (inl none_) = inr (
      Has-right j had (solved sources (missing_from g.sources g.k 0))
        (solved-Has sources g.sources g.k 0 j (omega arith) (omega arith) none_))
  all_there g had j h (inr found) = inl found

  -- An attempt at recovery, which is made at each packet.
  pub try_recover-Sound :
      (g : GroupState) (had : Sources)
      → Sound w sources g had
      → (out : Option Sources) × (b : Bool) × (try_recover g
          ≡ some (out, record g { recovered = b }))
        × Sound w sources (record g { recovered = b }) (had ++ gained out)
        × (g.k ≤ length g.sources + length g.repairs → b ≡ true)
  try_recover-Sound g had s =
      elim (Bool-cases (g.recovered || ltb (length g.sources + length g.repairs) g.k)) [
        | inl idle ↦ (
          none,
          g.recovered,
          ground (arith, try_recover-decides w sources g s.received),
          record {
            received = s.received;
            len = s.len;
            right = subst (AreRight sources) (sym (append-nil had)) s.right;
            done = λ over j h. subst (Available j g) (sym (append-nil had)) (s.done over j h);
          },
          (λ enough. ground arith),
        )
        | inr solves ↦ (
          some (solved sources (missing_from g.sources g.k 0)),
          true,
          ground (arith, try_recover-decides w sources g s.received),
          record {
            received = marked g true s.received;
            len = s.len;
            right =
                AreRight-append sources had (solved sources (missing_from g.sources g.k 0)) s.right
                  (solved-AreRight sources (missing_from g.sources g.k 0));
            done = λ over j h. all_there g had j h (Option-cases (lookup j g.sources));
          },
          (λ enough. refl),
        )
      ]

  kept :
      (g : GroupState) (had : Sources) (i j : ℕ)
      → Available j g had
      → Available j (record g { sources = insert i (get_or sources i []) g.sources }) had
  kept g had i j (inl (d, e)) = inl (elim (Bool-cases (i == j)) [
    | inl same ↦
        (get_or sources i [], ground (arith, lookup-insert i j (get_or sources i []) g.sources))
    | inr other ↦ (d, ground (arith, lookup-insert i j (get_or sources i []) g.sources))
  ])
  kept g had i j (inr h) = inr h

  pub source-Sound :
      (g : GroupState) (had : Sources) (i : ℕ)
      → Sound w sources g had
      → i < g.k
      → Sound w sources
          (record g { padded_len = w; sources = insert i (get_or sources i []) g.sources })
          had
  source-Sound g had i s h = record {
    received = record {
      shape = s.received.shape;
      room = s.received.room;
      sources_up =
          Above-insert 0 i (get_or sources i []) g.sources (omega arith) s.received.sources_up;
      repairs_up = s.received.repairs_up;
      each_source = λ t d e. elim (lookup-insert_inv i t (get_or sources i []) d g.sources e) [
        | inl same ↦ (
          omega (arith, h),
          inserted i t (get_or sources i []) d g.sources same e
              ∙ ap (λ u. get_or sources u []) same,
        )
        | inr old ↦ s.received.each_source t d old
      ];
      each_repair = s.received.each_repair;
    };
    len = refl;
    right = s.right;
    done = λ over j l. kept g had i j (s.done over j l);
  }

  pub repair-Sound :
      (g : GroupState) (had : Sources) (i : ℕ) (d : List ℕ)
      → Sound w sources g had
      → IsRepair g.k g.r w sources i d
      → Sound w sources (record g { padded_len = w; repairs = insert i d g.repairs }) had
  repair-Sound g had i d s h = record {
    received = record {
      shape = s.received.shape;
      room = s.received.room;
      sources_up = s.received.sources_up;
      repairs_up = Above-insert 0 i d g.repairs (omega arith) s.received.repairs_up;
      each_source = s.received.each_source;
      each_repair = λ t e found. elim (lookup-insert_inv i t d e g.repairs found) [
        | inl same ↦
            subst (λ u. IsRepair g.k g.r w sources u e) same
              (subst (IsRepair g.k g.r w sources i) (sym (inserted i t d e g.repairs same found)) h)
        | inr old ↦ s.received.each_repair t e old
      ];
    };
    len = refl;
    right = s.right;
    done = s.done;
  }
