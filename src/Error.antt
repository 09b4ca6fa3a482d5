-- ===== src/Error.antt =====
-- src/error.rs: the error type that the operations of the library share, and results over it.
use Prim.Native.String.{String}
use seam.Prelude.{ℕ, Option, none, some, Bool, true, false}

pub data SeamError : Type 0 where
  auth_failed : SeamError
  replay : ℕ → SeamError
  too_old : ℕ → SeamError
  buffer_too_small : (need have : ℕ) → SeamError
  invalid_pkt_type : ℕ → SeamError
  handshake_failed : String → SeamError
  flow_control_blocked : (available requested : ℕ) → SeamError
  unknown_stream : ℕ → SeamError
  stream_finished : ℕ → SeamError
  protocol_violation : String → SeamError
  packet_too_large : (have max : ℕ) → SeamError

pub data Result {ℓ} (A : Type ℓ) : Type ℓ where
  ok : A → Result A
  err : SeamError → Result A

-- The `?` operator.
infixl 5 ◌>>=◌
abbrev pub ◌>>=◌ {ℓ κ} : {A : Type ℓ} {B : Type κ} → Result A → (A → Result B) → Result B
ok a >>= f = f a
err e >>= f = err e

abbrev pub or_fail {ℓ} : {A : Type ℓ} → Option A → SeamError → Result A
or_fail none e = err e
or_fail (some a) e = ok a

abbrev pub is_ok {ℓ} : {A : Type ℓ} → Result A → Bool
is_ok (ok a) = true
is_ok (err e) = false
