-- ===== src/Session/Resume/Tests.antt =====
-- Instances of the theorems about src/session/resume.rs.
use seam.Prelude.{[], ◌∷◌, none, ◌≡◌, refl, arith, replicate}
use seam.Error.{ok}
use seam.Session.Resume.{SessionTicket, ResumeStore, ticket_to_bytes, ticket_from_bytes, take}
use seam.Session.Resume.Tickets.{ticket_from_bytes-ticket_to_bytes, take_twice}

abbrev ticket : SessionTicket
ticket = record {
  ticket_id = replicate 16 1;
  session_secret = replicate 32 2;
  created_at = 1000;
  ttl_seconds = 3600;
  peer_identity = replicate 32 3;
}

abbrev shop : ResumeStore
shop = record { tickets = ticket ∷ [] }

ticket_from_bytes-ticket_to_bytes_example :
    ticket_from_bytes (λ n. "bad length") (ticket_to_bytes ticket) ≡ ok ticket
ticket_from_bytes-ticket_to_bytes_example =
    ticket_from_bytes-ticket_to_bytes (λ n. "bad length") ticket
      (record { id = refl; secret = refl; peer = refl; created = omega arith; ttl = omega arith })

take_twice_example : (take 1200 (take 1100 shop (replicate 16 1)).1 (replicate 16 1)).0 ≡ none
take_twice_example = take_twice 1100 1200 shop (replicate 16 1)
