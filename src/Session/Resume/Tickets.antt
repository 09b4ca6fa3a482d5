-- ===== src/Session/Resume/Tickets.antt =====
-- Tickets of src/session/resume.rs through their bytes, and through the store.
use Prim.Native.String.{String}
use seam.Prelude.{
  ℕ, ◌<◌, List, [], ◌∷◌, ◌++◌, none, some, true, ◌≡◌, refl, sym, ap, ◌∙◌, arith, ◌==◌,
  if◌then◌else◌, Bool-cases, Option-cases, inl, inr, length, length-append,
}
use mathlib.Core.List.{append-nil}
use seam.Prelude.Bytes.{u64_mod, to_le, from_le, slice, length-to_le, from_le-to_le}
use seam.Prelude.Splice.{slice-front, slice-skip}
use seam.Error.{Result, ok}
use seam.Handshake.Cookie.{bytes_eq}
use seam.Handshake.Cookie.Window.{bytes_eq_refl}
use seam.Session.Resume.{
  SessionTicket, ResumeStore, is_valid, ticket_to_bytes, ticket_from_bytes, find, remove_id, store,
  take,
}

-- The lengths that the array types fix, and the range of the words.
pub record IsSized (t : SessionTicket) : Type 0 where
  pub id : length t.ticket_id ≡ 16
  pub secret : length t.session_secret ≡ 32
  pub peer : length t.peer_identity ≡ 32
  pub created : t.created_at < u64_mod
  pub ttl : t.ttl_seconds < u64_mod

abbrev ticket_of : List ℕ → List ℕ → ℕ → ℕ → List ℕ → Result SessionTicket
ticket_of i s c l p = ok (record {
  ticket_id = i;
  session_secret = s;
  created_at = c;
  ttl_seconds = l;
  peer_identity = p;
})

ticket_of_eq :
    {i i' s s' p p' : List ℕ} {c c' l l' : ℕ}
    → i ≡ i'
    → s ≡ s'
    → c ≡ c'
    → l ≡ l'
    → p ≡ p'
    → ticket_of i s c l p ≡ ticket_of i' s' c' l' p'
ticket_of_eq a b c d e = λ k. ticket_of (a k) (b k) (c k) (d k) (e k)

-- A ticket of the right lengths comes back from its bytes.
pub ticket_from_bytes-ticket_to_bytes :
    (format_length : ℕ → String) (t : SessionTicket)
    → IsSized t
    → ticket_from_bytes format_length (ticket_to_bytes t) ≡ ok t
unfolding ticket_from_bytes ticket_to_bytes
ticket_from_bytes-ticket_to_bytes format_length t z = rw (whole _ size) (
    ticket_of_eq (slice-front t.ticket_id _ 16 z.id)
      (slice-skip t.ticket_id _ 16 0 32 z.id ∙ slice-front t.session_secret _ 32 z.secret)
      (ap from_le (
          slice-skip t.ticket_id _ 16 32 40 z.id
          ∙ slice-skip t.session_secret _ 32 0 8 z.secret
          ∙ slice-front (to_le 8 t.created_at) _ 8 (length-to_le 8 t.created_at))
        ∙ from_le-to_le 8 t.created_at z.created)
      (ap from_le (
          slice-skip t.ticket_id _ 16 40 48 z.id
          ∙ slice-skip t.session_secret _ 32 8 16 z.secret
          ∙ slice-skip (to_le 8 t.created_at) _ 8 0 8 (length-to_le 8 t.created_at)
          ∙ slice-front (to_le 8 t.ttl_seconds) _ 8 (length-to_le 8 t.ttl_seconds))
        ∙ from_le-to_le 8 t.ttl_seconds z.ttl)
      (slice-skip t.ticket_id _ 16 48 80 z.id
        ∙ slice-skip t.session_secret _ 32 16 48 z.secret
        ∙ slice-skip (to_le 8 t.created_at) _ 8 8 40 (length-to_le 8 t.created_at)
        ∙ slice-skip (to_le 8 t.ttl_seconds) _ 8 0 32 (length-to_le 8 t.ttl_seconds)
        ∙ ap (λ l. slice l 0 32) (sym (append-nil t.peer_identity))
        ∙ slice-front t.peer_identity [] 32 z.peer))
  where
    whole : (n : ℕ) → n ≡ 96 → (n == 96) ≡ true
    whole n h = ground arith

    size :
        length (
          t.ticket_id
          ++ (t.session_secret
              ++ (to_le 8 t.created_at ++ (to_le 8 t.ttl_seconds ++ t.peer_identity))))
        ≡ 96
    size = omega (
      arith,
      length-append t.ticket_id (
          t.session_secret ++ (to_le 8 t.created_at ++ (to_le 8 t.ttl_seconds ++ t.peer_identity))),
      length-append t.session_secret
          (to_le 8 t.created_at ++ (to_le 8 t.ttl_seconds ++ t.peer_identity)),
      length-append (to_le 8 t.created_at) (to_le 8 t.ttl_seconds ++ t.peer_identity),
      length-append (to_le 8 t.ttl_seconds) t.peer_identity,
      length-to_le 8 t.created_at,
      length-to_le 8 t.ttl_seconds,
      z.id,
      z.secret,
      z.peer,
    )

find-remove_id : (id : List ℕ) (ts : List SessionTicket) → find id (remove_id id ts) ≡ none
unfolding find remove_id
find-remove_id id [] = refl
find-remove_id id (t ∷ ts) = elim (Bool-cases (bytes_eq t.ticket_id id)) [
  | inl same ↦ rw same (find-remove_id id ts)
  | inr other ↦ rw other (rw other (find-remove_id id ts))
]

take_gone :
    (now : ℕ) (s : ResumeStore) (id : List ℕ) → find id s.tickets ≡ none → take now s id ≡ (none, s)
unfolding take
take_gone now s id h = rw (h, take) refl

take_found :
    (now : ℕ) (s : ResumeStore) (id : List ℕ) (t : SessionTicket)
    → find id s.tickets ≡ some t
    → take now s id
      ≡ (if is_valid now t then some t else none, record s { tickets = remove_id id s.tickets })
unfolding take
take_found now s id t h = rw (h, take) refl

-- A ticket is handed out at most once: after `take`, another `take` of its number finds nothing.
pub take_twice :
    (now later : ℕ) (s : ResumeStore) (id : List ℕ) → (take later (take now s id).1 id).0 ≡ none
take_twice now later s id = elim (Option-cases (find id s.tickets)) [
  | inl gone ↦ rw (take_gone now s id gone) (rw (take_gone later s id gone) refl)
  | inr (t, found) ↦ rw (take_found now s id t found) (
      rw
        (take_gone later (record s { tickets = remove_id id s.tickets }) id
          (find-remove_id id s.tickets))
        refl)
]

find_first : (t : SessionTicket) (ts : List SessionTicket) → find t.ticket_id (t ∷ ts) ≡ some t
unfolding find
find_first t ts = rw (bytes_eq_refl t.ticket_id) refl

-- A stored ticket is found under its number, and handed out exactly if it is valid at that time.
pub take-store :
    (now later : ℕ) (s : ResumeStore) (t : SessionTicket)
    → (take later (store now s t) t.ticket_id).0 ≡ (if is_valid later t then some t else none)
unfolding store
take-store now later s t = rw (take_found later (store now s t) t.ticket_id t (find_first t _)) refl
