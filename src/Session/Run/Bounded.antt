-- ===== src/Session/Run/Bounded.antt =====
-- The streams that src/session/mod.rs keeps: what a change of the map must keep of their number and
-- their identifiers.
use seam.Prelude.{
  ℕ, ◌+◌, ◌*◌, ◌%◌, ◌≤◌, ◌<◌, [], none, some, ◌≡◌, ◌≢◌, refl, sym, ap, ◌∙◌, arith, Option-cases,
  inl, inr, length,
}
use seam.Prelude.Bytes.{u32_mod}
use seam.Prelude.Map.{
  Map, lookup, insert, length-insert_new, lookup-insert_inv, length-insert_old, Above, Above-insert,
}
use seam.Session.Stream.{Stream}
use seam.Session.State.{Role, client, server, local_parity, first_stream_id}

-- There are at most `max_streams` streams. The next identifier has the session's own parity, is at most
-- twice the number of streams and 2, and is above every stream's identifier of that parity.
pub record IsBounded (role : Role) (max_streams next : ℕ) (m : Map Stream) : Type 0 where
  pub sorted : Above 0 m
  pub few : length m ≤ max_streams
  pub parity : next % 2 ≡ local_parity role
  pub below : next ≤ 2 * length m + 2
  pub fresh :
      (k : ℕ) (stream : Stream) → lookup k m ≡ some stream → k % 2 ≡ local_parity role → k < next

pub []-IsBounded :
    (role : Role) (max_streams : ℕ) → IsBounded role max_streams (first_stream_id role) []
unfolding first_stream_id local_parity
[]-IsBounded client n = record {
  sorted = tt;
  few = omega arith;
  parity = refl;
  below = omega arith;
  fresh = λ k s h e. ground arith;
}
[]-IsBounded server n = record {
  sorted = tt;
  few = omega arith;
  parity = refl;
  below = omega arith;
  fresh = λ k s h e. ground arith;
}

module _ (role : Role) (max_streams next : ℕ) (m : Map Stream)
    (b : IsBounded role max_streams next m) where
  -- The next identifier is new.
  pub lookup-next : lookup next m ≡ none
  lookup-next = elim (Option-cases (lookup next m)) [
    | inl h ↦ h
    | inr (s, h) ↦ absurd (omega (arith, b.fresh next s h b.parity))
  ]

  pub replace-IsBounded :
      (k : ℕ) (v w : Stream) → lookup k m ≡ some w → IsBounded role max_streams next (insert k v m)
  replace-IsBounded k v w h = record {
    sorted = Above-insert 0 k v m (omega arith) b.sorted;
    few = omega (arith, b.few, length-insert_old 0 k v w m b.sorted h);
    parity = b.parity;
    below = omega (arith, b.below, length-insert_old 0 k v w m b.sorted h);
    fresh = λ j s g e. elim (lookup-insert_inv k j v s m g) [
      | inl same ↦ b.fresh j w (ap (λ i. lookup i m) (sym same) ∙ h) e
      | inr old ↦ b.fresh j s old e
    ];
  }

  pub remote-IsBounded :
      (k : ℕ) (v : Stream)
      → lookup k m ≡ none
      → length m < max_streams
      → k % 2 ≢ local_parity role
      → IsBounded role max_streams next (insert k v m)
  remote-IsBounded k v h l p = record {
    sorted = Above-insert 0 k v m (omega arith) b.sorted;
    few = omega (arith, length-insert_new k v m h);
    parity = b.parity;
    below = omega (arith, b.below, length-insert_new k v m h);
    fresh = λ j s g e. elim (lookup-insert_inv k j v s m g) [
      | inl same ↦ absurd (p (ap (λ i. i % 2) same ∙ e))
      | inr old ↦ b.fresh j s old e
    ];
  }

  pub open-IsBounded :
      (v : Stream)
      → length m < max_streams
      → max_streams < 2_147_483_647
      → IsBounded role max_streams ((next + 2) % u32_mod) (insert next v m)
  open-IsBounded v l small = record {
    sorted = Above-insert 0 next v m (omega arith) b.sorted;
    few = omega (arith, length-insert_new next v m lookup-next);
    parity = omega (arith, b.parity, b.below);
    below = omega (arith, b.below, length-insert_new next v m lookup-next);
    fresh = λ j s g e. elim (lookup-insert_inv next j v s m g) [
      | inl same ↦ omega (arith, b.below)
      | inr old ↦ omega (arith, b.fresh j s old e, b.below)
    ];
  }
