-- ===== src/RawUdp/Listening.antt =====
-- 16_sockets/part4_raw/*/client.c: what a client prints.
use eltex_homeworks.Prelude.{
  ℕ, suc, ◌+◌, ◌-◌, ◌*◌, ◌%◌, ◌≤◌, ◌≡◌, refl, sym, ap, ap₂, ◌∙◌, true, false, some, List, [], ◌∷◌,
  ◌++◌, length, take, get_elem?, arith, take_all, append_assoc, length-append,
}
use eltex_homeworks.Libc.Text.{Text, HasNo}
use eltex_homeworks.RawSockets.Packet.{Buffer, receive, bytes_of, word_at}
use eltex_homeworks.RawUdp.Programs.{
  c_string, buf_size, client_port, server_port, udp_behind, is_answer, printed, print_payload,
  listen,
}
use eltex_homeworks.RawUdp.Buffers.{
  receive-append, receive-get_elem?, c_string-append, c_string-whole,
}

-- An IP header, with options or without, of a packet with UDP.
pub record IsIpHeader (h : List ℕ) : Type 0 where
  pub first : ℕ
  pub starts : get_elem? h 0 ≡ some first
  pub protocol : get_elem? h 9 ≡ some 17
  pub size : length h ≡ first % 16 * 4

-- The packets that come before are not for the client.
abbrev pub AllSkipped : ℕ → List (List ℕ × Buffer) → Type 0
AllSkipped ip [] = Unit {0}
AllSkipped ip ((packet, stale) ∷ packets) =
    (is_answer ip (receive (take buf_size packet) stale) ≡ false) × AllSkipped ip packets

-- A UDP datagram from the server to the client.
abbrev pub answer_datagram : ℕ → ℕ → List ℕ → List ℕ
answer_datagram len check payload =
    bytes_of (server_port ∷ client_port ∷ len ∷ check ∷ []) ++ payload

module _ (link h rest : List ℕ) (stale : Buffer) (ip_header : IsIpHeader h) where
  abbrev framed : Buffer
  framed = receive ((link ++ h) ++ rest) stale

  framed-get_elem? : (i v : ℕ) → get_elem? h i ≡ some v → framed (length link + i) ≡ v
  framed-get_elem? i v e =
      ap (λ p. receive p stale (length link + i)) (append_assoc link h rest)
      ∙ receive-append link (h ++ rest) stale i
      ∙ receive-get_elem? h rest (λ j. stale (length link + j)) i v e

  first_byte : framed (length link) ≡ ip_header.first
  first_byte =
      ap framed (let e : length link ≡ length link + 0 = omega arith in e)
      ∙ framed-get_elem? 0 ip_header.first ip_header.starts

  udp_behind-framed : udp_behind (length link) framed ≡ length (link ++ h)
  udp_behind-framed =
      let f = first_byte in
      let s = ip_header.size in
      ap (λ x. length link + x % 16 * 4) first_byte ∙ omega (arith, length-append link h)

  framed-rest :
      (i : ℕ)
      → framed (length (link ++ h) + i) ≡ receive rest (λ j. stale (length (link ++ h) + j)) i
  framed-rest i = receive-append (link ++ h) rest stale i

  framed-word :
      (i : ℕ)
      → word_at framed (length (link ++ h) + i)
        ≡ word_at (receive rest (λ j. stale (length (link ++ h) + j))) i
  framed-word i =
      ap₂ (λ x y. x * 256 + y) (framed-rest i)
        (ap framed
            (let e : length (link ++ h) + i + 1 ≡ length (link ++ h) + (i + 1) = omega arith in e)
          ∙ framed-rest (i + 1))

  -- A field of the UDP header.
  udp_field :
      (i : ℕ)
      → word_at framed (udp_behind (length link) framed + i)
        ≡ word_at (receive rest (λ j. stale (length (link ++ h) + j))) i
  udp_field i = ap (λ n. word_at framed (n + i)) udp_behind-framed ∙ framed-word i

is_answer-true :
    (ip : ℕ) (b : Buffer)
    → b (ip + 9) ≡ 17
    → word_at b (udp_behind ip b + 2) ≡ client_port
    → word_at b (udp_behind ip b + 0) ≡ server_port
    → is_answer ip b ≡ true
unfolding is_answer
is_answer-true ip b protocol dest source =
    let source' : word_at b (udp_behind ip b) ≡ server_port =
      ap (word_at b) (let e : udp_behind ip b ≡ udp_behind ip b + 0 = omega arith in e) ∙ source in
    ground arith

module _ (link h payload : List ℕ) (len check : ℕ) (stale : Buffer) (ip_header : IsIpHeader h) where
  abbrev packet : List ℕ
  packet = (link ++ h) ++ answer_datagram len check payload

  is_answer-packet : is_answer (length link) (receive packet stale) ≡ true
  unfolding receive bytes_of
  is_answer-packet =
      is_answer-true (length link) (receive packet stale)
        (framed-get_elem? link h (answer_datagram len check payload) stale ip_header 9 17
          ip_header.protocol)
        (udp_field link h (answer_datagram len check payload) stale ip_header 2)
        (udp_field link h (answer_datagram len check payload) stale ip_header 0)

  abbrev in_front : List ℕ
  in_front = (link ++ h) ++ bytes_of (server_port ∷ client_port ∷ len ∷ check ∷ [])

  length-in_front : length in_front ≡ length (link ++ h) + 8
  unfolding bytes_of
  length-in_front = length-append (link ++ h) _

  payload_string :
      (n : ℕ)
      → c_string (receive packet stale) (udp_behind (length link) (receive packet stale) + 8) n
        ≡ c_string (receive payload (λ j. stale (length in_front + j))) 0 n
  payload_string n =
      ap (λ k. c_string (receive packet stale) (k + 8) n)
        (udp_behind-framed link h (answer_datagram len check payload) stale ip_header)
      ∙ ap₂ (λ p k. c_string (receive p stale) k n)
          (sym (
            append_assoc (link ++ h) (bytes_of (server_port ∷ client_port ∷ len ∷ check ∷ []))
              payload))
          (sym length-in_front)
      ∙ c_string-append in_front payload stale n

print_payload-string :
    (at : ℕ) (b : Buffer) (s : Text)
    → c_string b at (buf_size - at) ≡ some s
    → print_payload at b ≡ printed s
unfolding print_payload
print_payload-string at b s h = rw (h, print_payload) refl

module _ (link h s more : List ℕ) (len check : ℕ) (stale : Buffer) (ip_header : IsIpHeader h) where
  abbrev reply_packet : List ℕ
  reply_packet = (link ++ h) ++ answer_datagram len check (s ++ 0 ∷ more)

  payload_place : ℕ
  payload_place = udp_behind (length link) (receive reply_packet stale) + 8

  reply_printed :
      HasNo 0 s
      → length reply_packet ≤ buf_size
      → print_payload payload_place (receive reply_packet stale) ≡ printed s
  unfolding payload_place bytes_of
  reply_printed text fits =
      let place =
        udp_behind-framed link h (answer_datagram len check (s ++ 0 ∷ more)) stale ip_header in
      let all : length reply_packet ≡ length (link ++ h) + (8 + (length s + suc (length more))) =
        omega (
          arith,
          length-append (link ++ h) (answer_datagram len check (s ++ 0 ∷ more)),
          length-append s (0 ∷ more),
        ) in
      print_payload-string payload_place (receive reply_packet stale) s (
        payload_string link h (s ++ 0 ∷ more) len check stale ip_header (buf_size - payload_place)
        ∙ c_string-whole s more _ (buf_size - payload_place) text (omega arith))

  turn :
      (after : List (List ℕ × Buffer))
      → HasNo 0 s
      → length reply_packet ≤ buf_size
      → listen (length link) ((reply_packet, stale) ∷ after) ≡ printed s
  unfolding listen payload_place
  turn after text fits =
      let whole = take_all buf_size reply_packet fits in
      rw whole (
        rw (is_answer-packet link h (s ++ 0 ∷ more) len check stale ip_header)
          (reply_printed text fits))

  -- Packets that are not for the client come first.
  pub listen-answer :
      (before after : List (List ℕ × Buffer))
      → AllSkipped (length link) before
      → HasNo 0 s
      → length reply_packet ≤ buf_size
      → listen (length link) (before ++ (reply_packet, stale) ∷ after) ≡ printed s
  unfolding listen
  listen-answer [] after skipped text fits = turn after text fits
  listen-answer (_ ∷ before) after (h, skipped) text fits =
      rw h (listen-answer before after skipped text fits)
