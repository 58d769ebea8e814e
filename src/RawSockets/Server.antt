-- ===== src/RawSockets/Server.antt =====
-- 21_raw_sockets/server.c: one turn of the loop of main on a packet that recv has put into the buffer.
pub mod Bounds
use eltex_homeworks.Prelude.{
  ℕ, ◌+◌, ◌-◌, ◌*◌, ◌%◌, ◌^◌, Bool, true, false, ◌&&◌, not, Option, none, some, List, [], ◌∷◌, ltb,
  ◌==◌, if◌then◌else◌, min,
}
use eltex_homeworks.Libc.Text.{Text, codes, str_eq}
use eltex_homeworks.RawSockets.Clients.{
  Key, Client, Served, too_many, forgotten, counted, serve_client,
}
use eltex_homeworks.RawSockets.Packet.{
  Buffer, receive, word_at, address_at, ihl, udp_at, payload_at, eth_len, udp_len, buf_size,
  string_at, create_reply_packet,
}

-- 10.10.10.2
abbrev pub server_ip : ℕ
server_ip = 0x0a0a0a02

abbrev pub server_port : ℕ
server_port = 9999

-- The first five `continue`s: length, type, protocol, address and port.
unfoldable pub is_for_server : ℕ → Buffer → Bool
is_for_server received b =
    not (ltb received (eth_len + ihl b * 4 + udp_len))
    && (word_at b 12 == 0x0800)
    && (b 23 == 17)
    && (address_at b 30 == server_ip)
    && (word_at b (udp_at b + 2) == server_port)

-- ntohs(udph->len)
abbrev pub udp_len_of : Buffer → ℕ
udp_len_of b = word_at b (udp_at b + 4)

-- uint16_t payload_len = udp_len - sizeof(struct udphdr), which wraps round
abbrev pub payload_len_of : Buffer → ℕ
payload_len_of b = (udp_len_of b + 2 ^ 16 - udp_len) % 2 ^ 16

-- the bytes of the payload that the server looks at, or none (`continue`)
unfoldable pub safe_payload_len : ℕ → Buffer → Option ℕ
safe_payload_len received b =
    if ltb received (eth_len + ihl b * 4 + udp_len_of b)
    then none
    else if ltb 0 (payload_len_of b)
    then some (min (payload_len_of b) (buf_size - payload_at b - 1))
    else none

unfoldable pub payload_of : Buffer → ℕ → Text
payload_of b n = string_at b (payload_at b) n

abbrev pub client_key : Buffer → Key
client_key b = record { ip = address_at b 26; port = word_at b (udp_at b) }

-- What a turn of the loop ends with.
pub data Turn : Type 0 where
  ignored : Turn
  refused : Turn
  closed : List Client → Turn
  replied : List Client → Option (List ℕ) → Turn

-- From the message of client `k` to the reply.
unfoldable pub answer : Buffer → Key → Text → List Client → Turn
answer b k payload clients = elim (serve_client k (str_eq payload (codes "quit")) clients) [
  | too_many ↦ refused
  | forgotten clients' ↦ closed clients'
  | counted counter clients' ↦ replied clients' (create_reply_packet b payload counter)
]

unfoldable pub handle_packet : ℕ → Buffer → List Client → Turn
handle_packet received b clients =
    if is_for_server received b
    then elim (safe_payload_len received b) [
      | none ↦ ignored
      | some n ↦ answer b (client_key b) (payload_of b n) clients
    ]
    else ignored
