-- ===== src/Session/Resume.antt =====
-- src/session/resume.rs: tickets that resume a session, and the store that hands each out once. The
-- clock in seconds is the argument `now`; the random ticket number, BLAKE3 in its key-derivation mode
-- and the formatting of a number in an error message are arguments too. The store's `HashMap` is the
-- list of its tickets, no two with one number.
pub mod Tickets
mod Tests
use Prim.Native.String.{String}
use seam.Prelude.{
  ℕ, ◌+◌, List, [], ◌∷◌, ◌++◌, Option, none, some, Bool, true, false, not, ◌&&◌, ltb, leb, ◌==◌,
  if◌then◌else◌, length,
}
use seam.Prelude.Bytes.{to_le, from_le, slice}
use seam.Prelude.Words.{saturating_add}
use seam.Error.{Result, ok, err, handshake_failed}
use seam.Handshake.Cookie.{bytes_eq}

abbrev pub default_ttl : ℕ
default_ttl = 3600

abbrev pub ticket_bytes : ℕ
ticket_bytes = 96

pub record SessionTicket : Type 0 where
  pub ticket_id : List ℕ
  pub session_secret : List ℕ
  pub created_at : ℕ
  pub ttl_seconds : ℕ
  pub peer_identity : List ℕ

pub new_ticket : ℕ → List ℕ → List ℕ → List ℕ → SessionTicket
new_ticket now random_id peer_identity session_secret = record {
  ticket_id = random_id;
  session_secret = session_secret;
  created_at = now;
  ttl_seconds = default_ttl;
  peer_identity = peer_identity;
}

pub is_valid : ℕ → SessionTicket → Bool
is_valid now t = leb t.created_at now && ltb now (saturating_add t.created_at t.ttl_seconds)

pub ticket_to_bytes : SessionTicket → List ℕ
ticket_to_bytes t =
    t.ticket_id
    ++ (t.session_secret ++ (to_le 8 t.created_at ++ (to_le 8 t.ttl_seconds ++ t.peer_identity)))

-- `format_length` gives the message for a wrong length. The slices cannot fail once it is right.
pub ticket_from_bytes : (ℕ → String) → List ℕ → Result SessionTicket
ticket_from_bytes format_length b =
    if length b == ticket_bytes
    then ok (record {
      ticket_id = slice b 0 16;
      session_secret = slice b 16 48;
      created_at = from_le (slice b 48 56);
      ttl_seconds = from_le (slice b 56 64);
      peer_identity = slice b 64 96;
    })
    else err (handshake_failed (format_length (length b)))

module _ (derive_key : String → List ℕ → List ℕ) where
  pub proof_of_possession : SessionTicket → List ℕ → List ℕ
  proof_of_possession t nonce =
      derive_key "seam/resume-proof/v1" (t.ticket_id ++ (t.session_secret ++ nonce))

  pub verify_proof : SessionTicket → (nonce proof : List ℕ) → Bool
  unfolding proof_of_possession
  verify_proof t nonce proof = bytes_eq (proof_of_possession t nonce) proof

pub record ResumeStore : Type 0 where
  pub tickets : List SessionTicket

pub new : ResumeStore
new = record { tickets = [] }

-- `HashMap::remove`: what is there under the number, and what is left.
pub find : List ℕ → List SessionTicket → Option SessionTicket
find id [] = none
find id (t ∷ ts) = let rest = find id ts in if bytes_eq t.ticket_id id then some t else rest

pub remove_id : List ℕ → List SessionTicket → List SessionTicket
remove_id id [] = []
remove_id id (t ∷ ts) =
    let rest = remove_id id ts in if bytes_eq t.ticket_id id then rest else t ∷ rest

pub retain_valid : ℕ → List SessionTicket → List SessionTicket
retain_valid now [] = []
retain_valid now (t ∷ ts) =
    let rest = retain_valid now ts in if is_valid now t then t ∷ rest else rest

pub evict_expired : ℕ → ResumeStore → ResumeStore
unfolding retain_valid
evict_expired now s = record s { tickets = retain_valid now s.tickets }

pub store : ℕ → ResumeStore → SessionTicket → ResumeStore
unfolding evict_expired remove_id
store now s t = record s { tickets = t ∷ remove_id t.ticket_id (evict_expired now s).tickets }

-- "Remove and return the ticket, if present and not yet expired."
pub take : ℕ → ResumeStore → List ℕ → Option SessionTicket × ResumeStore
unfolding find remove_id is_valid
take now s id = elim (find id s.tickets) [
  | none ↦ (none, s)
  | some t ↦
      (if is_valid now t then some t else none, record s { tickets = remove_id id s.tickets })
]
