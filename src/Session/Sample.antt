-- ===== src/Session/Sample.antt =====
-- Sessions of src/session/mod.rs with which the theorems are instantiated: a client with one open
-- stream, and a server that has not heard of it.
use seam.Prelude.{ℕ, [], ◌∷◌, none, some, true, false, replicate}
use seam.Crypto.Cipher.{chacha20_poly1305}
use seam.Crypto.Keys.{PacketKeys}
use seam.Crypto.Replay
use seam.Crypto.Encoder.{PacketEncoder}
use seam.Crypto.Decoder.{PacketDecoder}
use seam.Session.Stream.{Stream}
use seam.Session.Arq.{millis}
use seam.Session.State.{Session, Role, client, server, default_limits, default_window}

abbrev pub keys : PacketKeys
keys = record {
  enc_key = replicate 32 1;
  hp_key = replicate 32 2;
  nonce_base = replicate 12 3;
  cipher_suite = chacha20_poly1305;
}

abbrev pub sender : PacketEncoder
sender = record { keys = keys; session_id = 77; next_pkt_num = 0 }

abbrev pub decoder : PacketDecoder
decoder = record { keys = keys; replay = Replay.new }

-- A stream that has 40 bytes to send and is finished.
abbrev pub open_stream : Stream
open_stream = record {
  id = 1;
  priority = 4;
  send_buf = replicate 40 7;
  send_offset = 40;
  send_unacked_offset = 0;
  send_max_data = 1000;
  recv_offset = 0;
  recv_buf = [];
  recv_max_data = 1000;
  recv_buffered = 0;
  fin_received = none;
  fin_sent = true;
  fin_flushed = false;
}

abbrev pub bare : Role → ℕ → Session
bare role next = record {
  id = 77;
  role = role;
  encoder = sender;
  decoder = decoder;
  streams = [];
  next_stream_id = next;
  send_window = record { limit = default_window; consumed = 0 };
  recv_window = record { limit = default_window; consumed = 0 };
  recv_consumed = 0;
  pending_max_data = some 20_000_000;
  pending_pong = true;
  pending_ping = true;
  arq = record {
    in_flight = (5, record { bytes = 9 ∷ 9 ∷ []; sent_at = 0; retransmits = 0 }) ∷ [];
    rto = millis 300;
    srtt_us = 0;
    rttvar_us = 0;
  };
  datagrams = record {
    send_queue = (1 ∷ 2 ∷ []) ∷ [];
    recv_queue = [];
    max_size = 1200;
    max_queue_depth = 64;
    dropped = 0;
  };
  limits = default_limits;
  ack_ranges = record {
    received = 3 ∷ 2 ∷ [];
    largest_received_at = some 10;
    largest_received = 3;
    ack_pending = true;
  };
  pending_cc_ack = none;
}

abbrev pub client_session : Session
client_session = record (bare client 3) { streams = (1, open_stream) ∷ [] }

abbrev pub server_session : Session
server_session = bare server 2
