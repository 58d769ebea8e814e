-- ===== src/RawSockets/Echo.antt =====
-- 21_raw_sockets: a line of input from the client to the server and back.
use eltex_homeworks.Prelude.{
  ℕ, zero, suc, ◌+◌, ◌*◌, ◌^◌, ◌≤◌, ◌<◌, ◌≡◌, refl, ap, ap₂, ◌∙◌, true, false, some, List, [], ◌∷◌,
  ◌++◌, ltb, ◌==◌, length, take, arith, take_all, length-append,
}
use eltex_homeworks.Libc.Text.{Text, HasNo, HasNo-append, codes, str_eq}
use eltex_homeworks.Libc.Decimal.{print_int, print_int-HasNo}
use eltex_homeworks.Prelude.Int.{pos}
use eltex_homeworks.RawSockets.Clients.{Key, Client, serve_client, counted}
use eltex_homeworks.RawSockets.Packet.{
  Buffer, receive, string_at, bytes_of, Mac, ip_header, payload_at, headers, mac_bytes,
  reply_headers, create_reply_packet, copied, reply_text, reply_size,
}
use eltex_homeworks.RawSockets.Server.{
  server_port, payload_len_of, replied, is_for_server, safe_payload_len, payload_of, answer,
  handle_packet, client_key,
}
use eltex_homeworks.RawSockets.Client.{
  client_port, request_packet, server_high, server_low, max_input_size, is_for_client, hear_packet,
  hear_buffer, hear_payload, heard, out_of_bounds,
}
use eltex_homeworks.RawSockets.Checksum.{ip_checksum}

-- Text of nonzero bytes.
abbrev pub IsText : Text → Type 0
IsText = HasNo 0

string_at-shift :
    (x : ℕ) (xs : List ℕ) (b : Buffer) (i n : ℕ)
    → string_at (receive (x ∷ xs) b) (suc i) n ≡ string_at (receive xs (λ j. b (suc j))) i n
unfolding string_at receive
string_at-shift x xs b i zero = refl
string_at-shift x xs b i (suc n) =
    let e : suc i + 1 ≡ suc (i + 1) = omega arith in rw e (rw (string_at-shift x xs b (i + 1) n))

string_at-receive : (s : Text) (b : Buffer) → IsText s → string_at (receive s b) 0 (length s) ≡ s
unfolding string_at receive
string_at-receive [] b h = refl
string_at-receive (x ∷ s) b h =
    let some_byte : (x == 0) ≡ false = ground (arith, h.0) in
    rw (some_byte, receive)
      (ap (◌∷◌ x) (string_at-shift x s b 0 (length s) ∙ string_at-receive s (λ j. b (suc j)) h.1))

-- The text behind the headers `hs` of a packet is read back, whatever the buffer held before.
string_at-append :
    (hs : List ℕ) (s : Text) (b : Buffer)
    → IsText s
    → string_at (receive (hs ++ s) b) (length hs) (length s) ≡ s
string_at-append [] s b h = string_at-receive s b h
string_at-append (x ∷ hs) s b h =
    string_at-shift x (hs ++ s) b (length hs) (length s) ∙ string_at-append hs s (λ j. b (suc j)) h

module _ (src dest : Mac) (ip1 ip2 : ℕ) (input : Text) (stale : Buffer) where
  abbrev request : List ℕ
  request = request_packet src dest ip1 ip2 input

  arrives : is_for_server (length request) (receive request stale) ≡ true
  unfolding is_for_server request_packet receive bytes_of
  arrives = ground arith

  key_of_request :
      ip1 < 2 ^ 16
      → ip2 < 2 ^ 16
      → client_key (receive request stale) ≡ record { ip = ip1 * 65536 + ip2; port = client_port }
  unfolding request_packet receive bytes_of
  key_of_request h1 h2 = ground arith

  payload_of_request :
      1 ≤ length input
      → length input ≤ 255
      → safe_payload_len (length request) (receive request stale) ≡ some (length input)
  unfolding safe_payload_len request_packet receive bytes_of
  payload_of_request some_text short = ground arith

  text_of_request : IsText input → payload_of (receive request stale) (length input) ≡ input
  unfolding payload_of request_packet receive bytes_of
  text_of_request h =
      string_at-append
        (headers (mac_bytes dest) (mac_bytes src) (length input)
          (ip_checksum (ip_header (length input) 0 ip1 ip2 server_high server_low)) ip1 ip2
          server_high server_low client_port server_port)
        input stale h

  request-answer :
      (clients : List Client)
      → IsText input
      → 1 ≤ length input
      → length input ≤ 255
      → handle_packet (length request) (receive request stale) clients
        ≡ answer (receive request stale) (client_key (receive request stale)) input clients
  unfolding handle_packet
  request-answer clients h some_text short =
      rw (arrives, payload_of_request some_text short, handle_packet)
        (ap (λ t. answer (receive request stale) (client_key (receive request stale)) t clients)
          (text_of_request h))

  -- the reply to it, with the text `msg`
  abbrev reply : Text → List ℕ
  reply msg = reply_headers (receive request stale) (length msg) ++ msg

  take-reply : (msg : Text) → length msg ≤ 213 → take max_input_size (reply msg) ≡ reply msg
  unfolding reply_headers bytes_of
  take-reply msg short = take_all max_input_size (reply msg) (omega arith)

  accepts :
      (msg : Text) (stale' : Buffer)
      → ip1 < 2 ^ 16
      → ip2 < 2 ^ 16
      → is_for_client (ip1 * 65536 + ip2) (receive (reply msg) stale') ≡ true
  unfolding is_for_client reply_headers request_packet receive bytes_of
  accepts msg stale' h1 h2 = ground arith

  abbrev arrived : Text → Buffer → Buffer
  arrived msg stale' = receive (reply msg) stale'

  place_of_reply : (msg : Text) (stale' : Buffer) → payload_at (arrived msg stale') ≡ 42
  unfolding reply_headers bytes_of receive
  place_of_reply msg stale' = refl

  length_of_reply :
      (msg : Text) (stale' : Buffer)
      → length msg ≤ 213
      → payload_len_of (arrived msg stale') ≡ length msg
  unfolding reply_headers bytes_of receive
  length_of_reply msg stale' short = omega arith

  text_of_reply :
      (msg : Text) (stale' : Buffer)
      → IsText msg
      → string_at (arrived msg stale') 42 (length msg) ≡ msg
  text_of_reply msg stale' h =
      unfold reply_headers bytes_of in
      string_at-append (reply_headers (receive request stale) (length msg)) msg stale' h

  payload-heard :
      (msg : Text) (stale' : Buffer)
      → IsText msg
      → length msg ≤ 213
      → hear_payload (arrived msg stale') 42 (length msg) ≡ heard msg
  unfolding hear_payload
  payload-heard msg stale' h short =
      let fits : ltb (42 + length msg) max_input_size ≡ true = ground arith in
      rw fits (ap heard (text_of_reply msg stale' h))

  reply-heard :
      (msg : Text) (stale' : Buffer)
      → ip1 < 2 ^ 16
      → ip2 < 2 ^ 16
      → IsText msg
      → length msg ≤ 213
      → hear_packet (ip1 * 65536 + ip2) (reply msg) stale' ≡ heard msg
  unfolding hear_packet hear_buffer
  reply-heard msg stale' h1 h2 h short = rw (take-reply msg short) (
      rw (accepts msg stale' h1 h2) (
        ap₂ (hear_payload (arrived msg stale')) (place_of_reply msg stale')
          (length_of_reply msg stale' short)
        ∙ payload-heard msg stale' h short))

  answer_counted :
      (k : Key) (clients clients' : List Client) (n : ℕ)
      → str_eq input (codes "quit") ≡ false
      → serve_client k false clients ≡ counted n clients'
      → length (reply_text input n) ≤ 213
      → answer (receive request stale) k input clients
        ≡ replied clients' (some (reply (reply_text input n)))
  unfolding answer create_reply_packet copied
  answer_counted k clients clients' n other served short =
      let fits : ltb (length (reply_text input n)) reply_size ≡ true = ground arith in
      rw (other, answer) (rw (served, answer) (rw (fits, create_reply_packet, copied)))

  -- A reply of more than 213 bytes of text does not fit into the client's buffer: the NUL is written
  -- beyond its end.
  reply-out_of_bounds :
      (msg : Text) (stale' : Buffer)
      → ip1 < 2 ^ 16
      → ip2 < 2 ^ 16
      → 214 ≤ length msg
      → length msg ≤ 255
      → hear_packet (ip1 * 65536 + ip2) (reply msg) stale' ≡ out_of_bounds
  unfolding hear_packet hear_buffer hear_payload is_for_client reply_headers request_packet receive
      bytes_of
  reply-out_of_bounds msg stale' h1 h2 long fits = ground arith

reply_text-IsText : (input : Text) (n : ℕ) → IsText input → IsText (reply_text input n)
unfolding reply_text
reply_text-IsText input n h =
    HasNo-append 0 input (32 ∷ print_int (pos n)) h (refl, print_int-HasNo 0 refl refl (pos n))

length-reply_text : (input : Text) (n : ℕ) → length input < length (reply_text input n)
unfolding reply_text
length-reply_text input n = omega (arith, length-append input (32 ∷ print_int (pos n)))

-- A line of input that is not empty and not "quit", sent in a packet of the client with the IP address
-- ip1.ip2 to a server whose table has room for it or knows the client: if the text of the reply has at
-- most 213 bytes, the server answers with a packet that the client's filter accepts and in which the
-- client reads the line, a space and the counter of its messages, whatever the two buffers held before.
pub echo :
    (src dest : Mac) (ip1 ip2 : ℕ) (input : Text) (stale stale' : Buffer)
    (clients clients' : List Client) (n : ℕ)
    → ip1 < 2 ^ 16
    → ip2 < 2 ^ 16
    → IsText input
    → 1 ≤ length input
    → str_eq input (codes "quit") ≡ false
    → serve_client (record { ip = ip1 * 65536 + ip2; port = client_port }) false clients
      ≡ counted n clients'
    → length (reply_text input n) ≤ 213
    → let sent = request_packet src dest ip1 ip2 input in
      (packet : List ℕ) × (handle_packet (length sent) (receive sent stale) clients
        ≡ replied clients' (some packet))
      × (hear_packet (ip1 * 65536 + ip2) packet stale' ≡ heard (reply_text input n))
echo src dest ip1 ip2 input stale stale' clients clients' n h1 h2 text some_text other served
      short =
    let msg : Text = reply_text input n in
    let sent : List ℕ = request_packet src dest ip1 ip2 input in
    (
      reply src dest ip1 ip2 input stale msg,
      request-answer src dest ip1 ip2 input stale clients text some_text
            (omega (arith, length-reply_text input n))
          ∙ ap (λ k. answer (receive sent stale) k input clients)
              (key_of_request src dest ip1 ip2 input stale h1 h2)
          ∙ answer_counted src dest ip1 ip2 input stale _ clients clients' n other served short,
      reply-heard src dest ip1 ip2 input stale msg stale' h1 h2 (reply_text-IsText input n text)
          short,
    )
