-- ===== src/Packet/Tests.antt =====
-- Instances of the theorems about src/packet.rs.
use seam.Prelude.{◌≡◌}
use seam.Error.{ok}
use seam.Packet.{to_u8, try_from, session_ticket}
use seam.Packet.Codes.{try_from-to_u8}

try_from-to_u8_example : try_from (to_u8 session_ticket) ≡ ok session_ticket
try_from-to_u8_example = try_from-to_u8 session_ticket
