-- ===== src/RawSockets/Packet.antt =====
-- The packets of 21_raw_sockets: an Ethernet header of 14 bytes, an IP header of 4 * ihl bytes (20 in
-- the packets that the program makes), a UDP header of 8 bytes and the payload; create_reply_packet of
-- server.c. A buffer gives the byte at each index.
use eltex_homeworks.Prelude.{
  ℕ, zero, suc, ◌+◌, ◌-◌, ◌*◌, ◌/◌, ◌%◌, ◌^◌, Option, none, some, List, [], ◌∷◌, ◌++◌, ltb, ◌==◌,
  if◌then◌else◌, length, take,
}
use eltex_homeworks.Prelude.Int.{pos}
use eltex_homeworks.Libc.Text.{Text}
use eltex_homeworks.Libc.Decimal.{print_int}
use eltex_homeworks.RawSockets.Checksum.{ip_checksum}

abbrev pub Buffer : Type 0
Buffer = ℕ → ℕ

-- recv: the packet's bytes over what the buffer held before.
unfoldable pub receive : List ℕ → Buffer → Buffer
receive [] b i = b i
receive (x ∷ xs) b zero = x
receive (x ∷ xs) b (suc i) = receive xs (λ j. b (suc j)) i

-- ntohs of the field at `i`
abbrev pub word_at : Buffer → ℕ → ℕ
word_at b i = b i * 256 + b (i + 1)

-- htons of a 16-bit value, as the two bytes that are stored
abbrev pub high : ℕ → ℕ
high w = w / 256 % 256

abbrev pub low : ℕ → ℕ
low w = w % 256

-- Offsets in bytes.
abbrev pub eth_len : ℕ
eth_len = 14

abbrev pub ip_len : ℕ
ip_len = 20

abbrev pub udp_len : ℕ
udp_len = 8

-- iph->ihl, the low half of the first byte of the IP header
abbrev pub ihl : Buffer → ℕ
ihl b = b 14 % 16

-- where the UDP header of a received packet begins
abbrev pub udp_at : Buffer → ℕ
udp_at b = eth_len + ihl b * 4

abbrev pub payload_at : Buffer → ℕ
payload_at b = udp_at b + udp_len

-- an IPv4 address as the number of its four bytes
abbrev pub address_at : Buffer → ℕ → ℕ
address_at b i = word_at b i * 65536 + word_at b (i + 2)

-- `n` bytes from `i` on, up to the first NUL
unfoldable pub string_at : Buffer → ℕ → ℕ → Text
string_at b i zero = []
string_at b i (suc n) = let rest = string_at b (i + 1) n in if b i == 0 then [] else b i ∷ rest

abbrev pub buf_size : ℕ
buf_size = 1024

abbrev pub reply_size : ℕ
reply_size = 256

-- What snprintf(reply_msg, ..., "%s %d", payload, client_counter) would write with enough room; its
-- length is reply_msg_len.
unfoldable pub reply_text : Text → ℕ → Text
reply_text payload counter = payload ++ 32 ∷ print_int (pos counter)

-- The IP header of a packet that carries `len` bytes of payload, as words: version 4 and ihl 5, the
-- total length, no id and no fragments, ttl 64 and protocol UDP, the checksum, source, destination.
abbrev pub ip_front : ℕ → List ℕ
ip_front len = 0x4500 ∷ ((ip_len + udp_len + len) % 2 ^ 16) ∷ 0 ∷ 0 ∷ 0x4011 ∷ []

abbrev pub ip_header : ℕ → ℕ → ℕ → ℕ → ℕ → ℕ → List ℕ
ip_header len check s1 s2 d1 d2 = ip_front len ++ check ∷ s1 ∷ s2 ∷ d1 ∷ d2 ∷ []

unfoldable pub bytes_of : List ℕ → List ℕ
bytes_of [] = []
bytes_of (w ∷ ws) = high w ∷ low w ∷ bytes_of ws

-- unsigned char mac[6]
pub record Mac : Type 0 where
  pub m0 : ℕ
  pub m1 : ℕ
  pub m2 : ℕ
  pub m3 : ℕ
  pub m4 : ℕ
  pub m5 : ℕ

abbrev pub mac_bytes : Mac → List ℕ
mac_bytes m = m.m0 ∷ m.m1 ∷ m.m2 ∷ m.m3 ∷ m.m4 ∷ m.m5 ∷ []

-- The six bytes of a MAC address.
abbrev pub mac_at : Buffer → ℕ → List ℕ
mac_at b i = b i ∷ b (i + 1) ∷ b (i + 2) ∷ b (i + 3) ∷ b (i + 4) ∷ b (i + 5) ∷ []

-- ethernet, IP and UDP headers in front of `len` bytes
abbrev pub headers : List ℕ → List ℕ → ℕ → ℕ → ℕ → ℕ → ℕ → ℕ → ℕ → ℕ → List ℕ
headers dhost shost len check s1 s2 d1 d2 source dest =
    dhost
    ++ (shost
        ++ (0x08
            ∷ 0x00
            ∷ bytes_of (
                ip_header len check s1 s2 d1 d2
                ++ source ∷ dest ∷ ((udp_len + len) % 2 ^ 16) ∷ 0 ∷ [])))

-- The headers of create_reply_packet: MAC addresses, IP addresses and ports of the received packet
-- swapped, and the checksum of the IP header with a zero in its field.
unfoldable pub reply_headers : Buffer → ℕ → List ℕ
reply_headers b len =
    let s1 = word_at b 30 in
    let s2 = word_at b 32 in
    let d1 = word_at b 26 in
    let d2 = word_at b 28 in
    headers (mac_at b 6) (mac_at b 0) len (ip_checksum (ip_header len 0 s1 s2 d1 d2)) s1 s2 d1 d2
      (word_at b (udp_at b + 2)) (word_at b (udp_at b))

-- What memcpy takes from reply_msg, which snprintf has filled with at most reply_size - 1 characters and
-- a NUL. `none` where the copy would read beyond reply_msg.
unfoldable pub copied : Text → Option (List ℕ)
copied msg =
    if ltb (length msg) reply_size
    then some msg
    else if length msg == reply_size
    then some (take (reply_size - 1) msg ++ 0 ∷ [])
    else none

-- create_reply_packet: the bytes that are sent.
unfoldable pub create_reply_packet : Buffer → Text → ℕ → Option (List ℕ)
create_reply_packet b payload counter =
    let msg = reply_text payload counter in
    elim (copied msg) [ none ↦ none | some bytes ↦ some (reply_headers b (length msg) ++ bytes) ]
