-- ===== src/RawSockets/Client.antt =====
-- 21_raw_sockets/client.c: the packet that sender_thread sends for a line of input, and one turn of
-- the loop of receiver_thread.
use eltex_homeworks.Prelude.{ℕ, ◌+◌, Bool, ◌&&◌, List, ◌++◌, ltb, ◌==◌, if◌then◌else◌, length, take}
use eltex_homeworks.Libc.Text.{Text}
use eltex_homeworks.RawSockets.Checksum.{ip_checksum}
use eltex_homeworks.RawSockets.Server.{server_ip, server_port, payload_len_of}
use eltex_homeworks.RawSockets.Packet.{
  Buffer, receive, word_at, address_at, udp_at, payload_at, string_at, ip_header, Mac, mac_bytes,
  headers,
}

abbrev pub client_port : ℕ
client_port = 7777

-- the two words of 10.10.10.2
abbrev pub server_high : ℕ
server_high = 0x0a0a

abbrev pub server_low : ℕ
server_low = 0x0a02

-- The headers that main fills in and sender_thread completes for `len` bytes of text, from the client's
-- MAC address `src`, the server's `dest` and the client's IP address, given by its two words.
abbrev pub request_headers : Mac → Mac → ℕ → ℕ → ℕ → List ℕ
request_headers src dest ip1 ip2 len =
    headers (mac_bytes dest) (mac_bytes src) len
      (ip_checksum (ip_header len 0 ip1 ip2 server_high server_low)) ip1 ip2 server_high server_low
      client_port server_port

-- The packet that sender_thread sends for a line of input.
unfoldable pub request_packet : Mac → Mac → ℕ → ℕ → Text → List ℕ
request_packet src dest ip1 ip2 input = request_headers src dest ip1 ip2 (length input) ++ input

abbrev pub max_input_size : ℕ
max_input_size = 256

-- The `continue`s of receiver_thread.
unfoldable pub is_for_client : ℕ → Buffer → Bool
is_for_client client_ip b =
    (word_at b 12 == 0x0800)
    && (b 23 == 17)
    && (address_at b 30 == client_ip)
    && (address_at b 26 == server_ip)
    && (word_at b (udp_at b + 2) == client_port)
    && (word_at b (udp_at b) == server_port)

pub data Heard : Type 0 where
  skipped : Heard
  heard : Text → Heard
  out_of_bounds : Heard

-- The payload of an accepted packet. The terminating NUL is written at payload[payload_len], which must
-- lie in the buffer.
unfoldable pub hear_payload : Buffer → ℕ → ℕ → Heard
hear_payload b payload payload_len =
    if ltb (payload + payload_len) max_input_size
    then heard (string_at b payload payload_len)
    else out_of_bounds

unfoldable pub hear_buffer : ℕ → Buffer → Heard
hear_buffer client_ip b =
    if is_for_client client_ip b then hear_payload b (payload_at b) (payload_len_of b) else skipped

-- One packet that recv has cut to the buffer's size.
unfoldable pub hear_packet : ℕ → List ℕ → Buffer → Heard
hear_packet client_ip packet stale =
    hear_buffer client_ip (receive (take max_input_size packet) stale)
