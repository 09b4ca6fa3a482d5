-- ===== src/Session/Flushing/Unsent.antt =====
-- What is left to send in the streams of src/session/mod.rs, and a rule for the parts of `flush`.
use seam.Prelude.{
  ℕ, ◌≤◌, List, [], ◌∷◌, Option, none, some, Bool, true, false, ◌||◌, ◌≡◌, refl, sym, ap, ◌∙◌,
  arith, ◌==◌, if◌then◌else◌, length,
}
use seam.Prelude.Map.{Map, lookup, insert, lookup-insert}
use seam.Error.{ok, err}
use seam.Session.Stream.{Stream}
use seam.Session.State.{Session}
use seam.Session.Ack.Numbers.{mem}
use seam.Session.Flushing.{
  Flushed, TaggedPacket, onto, and_then, followed_by, insert_by_priority, sort_by_priority,
}

-- The part ends; where it succeeds, `Q` holds of the session.
abbrev pub Ends : (Session → Type 0) → Option Flushed → Type 0
Ends Q none = ⊥
Ends Q (some (err e, s)) = Unit
Ends Q (some (ok ps, s)) = Q s

pub Ends-some : (Q : Session → Type 0) (x : Flushed) → Q x.1 → Ends Q (some x)
Ends-some Q (err e, s) q = tt
Ends-some Q (ok ps, s) q = q

pub Ends-onto :
    (Q : Session → Type 0) (ps : List TaggedPacket) (x : Option Flushed)
    → Ends Q x
    → Ends Q (onto ps x)
Ends-onto Q ps none h = absurd h
Ends-onto Q ps (some (err e, s)) h = tt
Ends-onto Q ps (some (ok qs, s)) h = h

pub Ends-followed_by :
    (Q R : Session → Type 0) (x : Option Flushed) (f : Session → Option Flushed)
    → Ends Q x
    → ((s : Session) → Q s → Ends R (f s))
    → Ends R (followed_by x f)
Ends-followed_by Q R none f h k = absurd h
Ends-followed_by Q R (some (err e, s)) f h k = tt
Ends-followed_by Q R (some (ok ps, s)) f h k = Ends-onto R ps (f s) (k s h)

pub Ends-and_then :
    (Q R : Session → Type 0) (x : Flushed) (f : Session → Option Flushed)
    → Q x.1
    → ((s : Session) → Q s → Ends R (f s))
    → Ends R (and_then x f)
Ends-and_then Q R (err e, s) f q k = tt
Ends-and_then Q R (ok ps, s) f q k = Ends-onto R ps (f s) (k s q)

pub Ends-mono :
    (Q R : Session → Type 0) (x : Option Flushed)
    → ((s : Session) → Q s → R s)
    → Ends Q x
    → Ends R x
Ends-mono Q R none f h = absurd h
Ends-mono Q R (some (err e, s)) f h = tt
Ends-mono Q R (some (ok ps, s)) f h = f s h

abbrev pub size_of : Option Stream → Option ℕ
size_of none = none
size_of (some stream) = some (length stream.send_buf)

-- How much of the stream `k` is unsent.
abbrev pub unsent : Map Stream → ℕ → Option ℕ
unsent m k = size_of (lookup k m)

pub unsent-insert :
    (k j : ℕ) (v : Stream) (m : Map Stream)
    → unsent (insert k v m) j ≡ (if k == j then some (length v.send_buf) else unsent m j)
unsent-insert k j v m = ap size_of (lookup-insert k j v m) ∙ ground arith

pub unsent-insert_self :
    (k : ℕ) (v : Stream) (m : Map Stream) → unsent (insert k v m) k ≡ some (length v.send_buf)
unsent-insert_self k v m = unsent-insert k k v m ∙ ground arith

pub injective : (x : Option ℕ) (a b : ℕ) → x ≡ some a → x ≡ some b → a ≡ b
injective x a b p q = ground arith

-- Every stream is still there, with no more to send.
abbrev pub Shrinks : Map Stream → Map Stream → Type 0
Shrinks m m' = (k n : ℕ) → unsent m k ≡ some n → (n' : ℕ) × (unsent m' k ≡ some n') × (n' ≤ n)

pub Shrinks-refl : (m : Map Stream) → Shrinks m m
Shrinks-refl m k n h = (n, h, omega arith)

pub Shrinks-trans : (a b c : Map Stream) → Shrinks a b → Shrinks b c → Shrinks a c
Shrinks-trans a b c f g k n h =
    let (n', h', l) = f k n h in let (n'', h'', l') = g k n' h' in (n'', h'', omega arith)

pub Shrinks-insert :
    (sid n : ℕ) (v : Stream) (m : Map Stream)
    → unsent m sid ≡ some n
    → length v.send_buf ≤ n
    → Shrinks m (insert sid v m)
Shrinks-insert sid n v m h l k j g = either (sid == k) refl
  where
    bounded : (sid == k) ≡ true → length v.send_buf ≤ j
    bounded e = omega (arith, injective (unsent m k) n j (ap (unsent m) (sym (ground arith)) ∙ h) g)

    either :
        (b : Bool) → (sid == k) ≡ b → (n' : ℕ) × (unsent (insert sid v m) k ≡ some n') × (n' ≤ j)
    either true e = (
      length v.send_buf,
      unsent-insert sid k v m ∙ ap (λ b. if b then some (length v.send_buf) else unsent m k) e,
      bounded e,
    )
    either false e = (
      j,
      unsent-insert sid k v m ∙ ap (λ b. if b then some (length v.send_buf) else unsent m k) e ∙ g,
      omega arith,
    )

pub mem-sort_by_priority :
    (m : Map Stream) (k : ℕ) (ids : List ℕ) → mem k (sort_by_priority m ids) ≡ mem k ids
unfolding sort_by_priority
mem-sort_by_priority m k [] = refl
mem-sort_by_priority m k (id ∷ ids) =
    mem-insert_by_priority id (sort_by_priority m ids)
    ∙ ap (λ b. (id == k) || b) (mem-sort_by_priority m k ids)
  where
    mem-insert_by_priority :
        (x : ℕ) (xs : List ℕ) → mem k (insert_by_priority m x xs) ≡ ((x == k) || mem k xs)
    mem-insert_by_priority x [] = refl
    mem-insert_by_priority x (y ∷ ys) = ground (arith, mem-insert_by_priority x ys)
