-- ===== src/Transport/Stun.antt =====
-- src/transport/nat.rs: the STUN messages by which a host learns its external address. The exchange
-- over the socket, with its retries and timeouts, is not modelled.
pub mod Attributes
pub mod Response
mod Tests
use seam.Prelude.{
  ℕ, zero, suc, ◌+◌, ◌*◌, ◌/◌, ◌%◌, List, [], ◌∷◌, ◌++◌, Option, none, some, Bool, true, false, ltb,
  ◌==◌, not, if◌then◌else◌, length, get_or, take, drop,
}
use seam.Prelude.Bits.{bit_xor}
use seam.Prelude.Bytes.{slice}
use seam.Prelude.Xor.{xor_bytes}

abbrev pub stun_magic : ℕ
stun_magic = 0x2112A442

abbrev pub stun_binding_request : ℕ
stun_binding_request = 0x0001

abbrev pub stun_binding_response : ℕ
stun_binding_response = 0x0101

abbrev pub stun_attr_mapped_address : ℕ
stun_attr_mapped_address = 0x0001

abbrev pub stun_attr_xor_mapped_address : ℕ
stun_attr_xor_mapped_address = 0x0020

abbrev pub stun_header_len : ℕ
stun_header_len = 20

-- An `Ipv4Addr` as the word that it is made from, an `Ipv6Addr` as its bytes, with the port.
pub data SocketAddr : Type 0 where
  v4 : ℕ → ℕ → SocketAddr
  v6 : List ℕ → ℕ → SocketAddr

-- `to_be_bytes` and `from_be_bytes` of words of two and of four bytes.
abbrev pub to_be16 : ℕ → List ℕ
to_be16 v = (v / 256) ∷ (v % 256) ∷ []

abbrev pub to_be32 : ℕ → List ℕ
to_be32 v = (v / 16_777_216) ∷ (v / 65_536 % 256) ∷ (v / 256 % 256) ∷ (v % 256) ∷ []

abbrev pub from_be16 : List ℕ → ℕ → ℕ
from_be16 bs i = get_or bs i 0 * 256 + get_or bs (i + 1) 0

abbrev pub from_be32 : List ℕ → ℕ → ℕ
from_be32 bs i = from_be16 bs i * 65_536 + from_be16 bs (i + 2)

unfoldable pub build_binding_request : List ℕ → List ℕ
build_binding_request txn_id =
    to_be16 stun_binding_request ++ (to_be16 0 ++ (to_be32 stun_magic ++ txn_id))

unfoldable pub parse_mapped_address : List ℕ → Bool → ℕ → Option SocketAddr
parse_mapped_address bytes xored magic =
    let family = get_or bytes 1 0 in
    let raw_port = from_be16 bytes 2 in
    let port = if xored then bit_xor raw_port (magic / 65_536) else raw_port in
    let raw_ip = from_be32 bytes 4 in
    let raw = slice bytes 4 20 in
    if ltb (length bytes) 4
    then none
    else if family == 1
    then (if ltb (length bytes) 8
        then none
        else some (v4 (if xored then bit_xor raw_ip magic else raw_ip) port))
    else if family == 2
    then (if ltb (length bytes) 20
        then none
        else some (v6 (if xored then xor_bytes raw (to_be32 magic) else raw) port))
    else none

-- `mapped` and `xor_mapped`.
abbrev pub Found : Type 0
Found = Option SocketAddr × Option SocketAddr

-- The `match` on the type of an attribute.
unfoldable pub note_attribute : ℕ → List ℕ → Found → Found
note_attribute attr_type value (mapped, xor_mapped) =
    if attr_type == stun_attr_mapped_address
    then (parse_mapped_address value false stun_magic, xor_mapped)
    else if attr_type == stun_attr_xor_mapped_address
    then (mapped, parse_mapped_address value true stun_magic)
    else (mapped, xor_mapped)

-- The loop over the attributes from `pos` on, with fuel; `none` means that the fuel ran out.
unfoldable pub parse_attributes : ℕ → List ℕ → ℕ → ℕ → Found → Option Found
parse_attributes zero bytes end_ pos found = none
parse_attributes (suc fuel) bytes end_ pos found =
    let len = from_be16 bytes (pos + 2) in
    let value_start = pos + 4 in
    let value_end = value_start + len in
    let rest =
      parse_attributes fuel bytes end_ (value_start + (len + 3) / 4 * 4)
        (note_attribute (from_be16 bytes pos) (slice bytes value_start value_end) found) in
    if ltb end_ value_start
    then some found
    else if ltb (length bytes) value_end
    then some found
    else rest

abbrev pub same_bytes : List ℕ → List ℕ → Bool
same_bytes [] [] = true
same_bytes [] (y ∷ ys) = false
same_bytes (x ∷ xs) [] = false
same_bytes (x ∷ xs) (y ∷ ys) = let rest = same_bytes xs ys in if x == y then rest else false

-- `xor_mapped.or(mapped)`
abbrev pub preferred : Option Found → Option SocketAddr
preferred none = none
preferred (some (mapped, none)) = mapped
preferred (some (mapped, some addr)) = some addr

-- Each round of the loop passes four bytes at least, so the fuel is enough.
unfoldable pub parse_binding_response : List ℕ → List ℕ → Option SocketAddr
parse_binding_response bytes expected_txn =
    let attr_len = from_be16 bytes 2 in
    if ltb (length bytes) stun_header_len
    then none
    else if not (from_be16 bytes 0 == stun_binding_response)
    then none
    else if not (from_be32 bytes 4 == stun_magic)
    then none
    else if not (same_bytes (slice bytes 8 20) expected_txn)
    then none
    else if ltb (length bytes) (stun_header_len + attr_len)
    then none
    else preferred (
        parse_attributes (suc attr_len) bytes (stun_header_len + attr_len) stun_header_len
          (none, none))
