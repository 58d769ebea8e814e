-- ===== src/RawUdp/Programs.antt =====
-- 16_sockets/part4_raw: client.c and server.c of raw_udp, raw_udp_ip and raw_udp_ip_mac (the three servers
-- are the same), and raw_sniffer_udp.c. Packets have the layout of RawSockets/Packet.antt; without an
-- Ethernet header the IP header is at 0.
use eltex_homeworks.Prelude.{
  ℕ, zero, suc, ◌+◌, ◌-◌, ◌*◌, ◌%◌, Bool, ◌&&◌, Option, none, some, List, [], ◌∷◌, ◌++◌, ◌==◌,
  if◌then◌else◌, length, take,
}
use eltex_homeworks.Libc.Text.{Text, codes}
use eltex_homeworks.RawSockets.Checksum.{ip_checksum}
use eltex_homeworks.RawSockets.Packet.{
  Buffer, receive, word_at, address_at, bytes_of, Mac, mac_bytes, headers, ip_header,
}

-- The three clients.
pub data RawClient : Type 0 where
  raw_udp : RawClient
  raw_udp_ip : RawClient
  raw_udp_ip_mac : RawClient

-- "hello!" with its NUL
abbrev pub message : List ℕ
message = codes "hello!" ++ 0 ∷ []

-- `n` bytes of a buffer from `i` on
unfoldable pub bytes_from : Buffer → ℕ → ℕ → List ℕ
bytes_from b i zero = []
bytes_from b i (suc n) = b i ∷ bytes_from b (i + 1) n

abbrev pub client_port : ℕ
client_port = 7777

abbrev pub server_port : ℕ
server_port = 9999

-- source, dest, len and no check
abbrev pub udp_header : List ℕ
udp_header = bytes_of (client_port ∷ server_port ∷ (8 + length message) ∷ 0 ∷ [])

-- raw_udp sends sizeof(struct udphdr) + len bytes of `packet`, where len has the header already: the
-- last ones are what the array holds.
abbrev pub udp_datagram : Buffer → List ℕ
udp_datagram packet =
    bytes_from (receive (udp_header ++ message) packet) 0 (8 + (8 + length message))

-- raw_udp_ip leaves the total length, the id, the checksum and the source to the kernel.
abbrev pub unfinished_ip : List ℕ
unfinished_ip = bytes_of (0x4500 ∷ 0 ∷ 0 ∷ 0 ∷ 0x4011 ∷ 0 ∷ 0 ∷ 0 ∷ 0x7f00 ∷ 0x0001 ∷ [])

abbrev pub src_mac : Mac
src_mac = record { m0 = 0x00; m1 = 0x11; m2 = 0x22; m3 = 0x33; m4 = 0x44; m5 = 0x66 }

abbrev pub dest_mac : Mac
dest_mac = record { m0 = 0x00; m1 = 0x11; m2 = 0x22; m3 = 0x33; m4 = 0x44; m5 = 0x55 }

-- From 10.10.10.3 to 10.10.10.2.
abbrev pub mac_headers : List ℕ
mac_headers =
    headers (mac_bytes dest_mac) (mac_bytes src_mac) (length message)
      (ip_checksum (ip_header (length message) 0 0x0a0a 0x0a03 0x0a0a 0x0a02)) 0x0a0a 0x0a03 0x0a0a
      0x0a02 client_port server_port

-- What sendto gets; `packet` is what the array of raw_udp holds.
unfoldable pub sent_packet : RawClient → Buffer → List ℕ
sent_packet raw_udp packet = udp_datagram packet
sent_packet raw_udp_ip packet = unfinished_ip ++ (udp_header ++ message)
sent_packet raw_udp_ip_mac packet = mac_headers ++ message

-- The bytes in front of the UDP header in it.
abbrev pub front_len : RawClient → ℕ
front_len raw_udp = 0
front_len raw_udp_ip = 20
front_len raw_udp_ip_mac = 34

-- Where the IP header of a received packet begins.
abbrev pub ip_at : RawClient → ℕ
ip_at raw_udp = 0
ip_at raw_udp_ip = 0
ip_at raw_udp_ip_mac = 14

-- buf + iph->ihl * 4, where iph is at `ip`
abbrev pub udp_behind : ℕ → Buffer → ℕ
udp_behind ip b = ip + b ip % 16 * 4

-- The string at `i`, of which `n` bytes are in the array; `none` if it goes beyond them.
unfoldable pub c_string : Buffer → ℕ → ℕ → Option Text
c_string b i zero = none
c_string b i (suc n) =
    let rest = c_string b (i + 1) n in
    if b i == 0 then some [] else elim rest [ none ↦ none | some s ↦ some (b i ∷ s) ]

abbrev pub buf_size : ℕ
buf_size = 1024

-- The `continue`s of a client.
unfoldable pub is_answer : ℕ → Buffer → Bool
is_answer ip b =
    (b (ip + 9) == 17)
    && (word_at b (udp_behind ip b + 2) == client_port)
    && (word_at b (udp_behind ip b) == server_port)

pub data Printed : Type 0 where
  waiting : Printed
  printed : Text → Printed
  out_of_bounds : Printed

unfoldable pub print_payload : ℕ → Buffer → Printed
print_payload at b = elim (c_string b at (buf_size - at)) [
  | none ↦ out_of_bounds
  | some s ↦ printed s
]

-- The loop of a client over the packets that come, each with what `buf` held before.
unfoldable pub listen : ℕ → List (List ℕ × Buffer) → Printed
listen ip [] = waiting
listen ip ((packet, stale) ∷ packets) =
    let rest = listen ip packets in
    let b = receive (take buf_size packet) stale in
    if is_answer ip b then print_payload (udp_behind ip b + 8) b else rest

abbrev pub server_buf : ℕ
server_buf = 100

abbrev pub reply_size : ℕ
reply_size = 256

pub record Served : Type 0 where
  pub received : Text
  pub reply : List ℕ
  pub buf : Buffer

-- A round of the server on a datagram, with what `buf` and `reply` hold; all 256 bytes of `reply` are sent.
-- `none` where printf and sprintf read beyond `buf`. The text has at most 99 bytes, so that sprintf stays
-- in `reply`.
unfoldable pub serve : List ℕ → Buffer → Buffer → Option Served
serve datagram buf reply =
    let b = receive (take server_buf datagram) buf in
    elim (c_string b 0 server_buf) [
      | none ↦ none
      | some s ↦ some (record {
        received = s;
        reply = bytes_from (receive (s ++ (codes " reply" ++ 0 ∷ [])) reply) 0 reply_size;
        buf = b;
      })
    ]

-- What the sniffer prints of a packet.
pub record Sniffed : Type 0 where
  pub source_ip : ℕ
  pub destination_ip : ℕ
  pub source_port : ℕ
  pub destination_port : ℕ
  pub length_field : ℕ
  pub checksum : ℕ

unfoldable pub sniff : Buffer → Sniffed
sniff b = record {
  source_ip = address_at b 12;
  destination_ip = address_at b 16;
  source_port = word_at b (udp_behind 0 b);
  destination_port = word_at b (udp_behind 0 b + 2);
  length_field = word_at b (udp_behind 0 b + 4);
  checksum = word_at b (udp_behind 0 b + 6);
}
