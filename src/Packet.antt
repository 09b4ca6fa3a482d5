-- ===== src/Packet.antt =====
-- src/packet.rs: packet types and their codes, and the lengths of a packet's parts.
pub mod Codes
mod Tests
use seam.Prelude.{ℕ, ◌+◌, ◌==◌, if◌then◌else◌}
use seam.Error.{Result, ok, err, invalid_pkt_type}

abbrev pub header_len : ℕ
header_len = 32

abbrev pub tag_len : ℕ
tag_len = 16

abbrev pub min_packet_len : ℕ
min_packet_len = header_len + tag_len

abbrev pub max_packet_len : ℕ
max_packet_len = 65535

abbrev pub encode_buf_len : ℕ → ℕ
encode_buf_len plaintext_len = header_len + plaintext_len + tag_len

pub data PktType : Type 0 where
  initial handshake data_frame ack fec_repair chaff path_probe close datagram : PktType
  key_update max_data ping pong session_ticket svc_resume svc_resume_ok : PktType
  path_challenge path_response : PktType

-- `pkt_type as u8`
pub to_u8 : PktType → ℕ
to_u8 initial = 0x00
to_u8 handshake = 0x01
to_u8 data_frame = 0x02
to_u8 ack = 0x03
to_u8 fec_repair = 0x04
to_u8 chaff = 0x05
to_u8 path_probe = 0x06
to_u8 close = 0x07
to_u8 datagram = 0x08
to_u8 key_update = 0x09
to_u8 max_data = 0x0A
to_u8 ping = 0x0B
to_u8 pong = 0x0C
to_u8 session_ticket = 0x0D
to_u8 svc_resume = 0x0E
to_u8 svc_resume_ok = 0x0F
to_u8 path_challenge = 0x10
to_u8 path_response = 0x11

pub try_from : ℕ → Result PktType
try_from v =
    if v == 0x00
    then ok initial
    else if v == 0x01
    then ok handshake
    else if v == 0x02
    then ok data_frame
    else if v == 0x03
    then ok ack
    else if v == 0x04
    then ok fec_repair
    else if v == 0x05
    then ok chaff
    else if v == 0x06
    then ok path_probe
    else if v == 0x07
    then ok close
    else if v == 0x08
    then ok datagram
    else if v == 0x09
    then ok key_update
    else if v == 0x0A
    then ok max_data
    else if v == 0x0B
    then ok ping
    else if v == 0x0C
    then ok pong
    else if v == 0x0D
    then ok session_ticket
    else if v == 0x0E
    then ok svc_resume
    else if v == 0x0F
    then ok svc_resume_ok
    else if v == 0x10
    then ok path_challenge
    else if v == 0x11
    then ok path_response
    else err (invalid_pkt_type v)
