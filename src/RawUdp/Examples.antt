-- ===== src/RawUdp/Examples.antt =====
-- 16_sockets/part4_raw: tests, and the theorems at concrete inputs.
use eltex_homeworks.Prelude.{
  ℕ, ◌+◌, ◌-◌, ◌*◌, ◌≡◌, refl, ap, ◌∙◌, some, List, [], ◌∷◌, ◌++◌, length, take, drop, replicate,
  arith, take-append, append-nil,
}
use eltex_homeworks.Libc.Text.{codes}
use eltex_homeworks.RawSockets.Packet.{Buffer, receive, bytes_of, high, low}
use eltex_homeworks.RawUdp.Programs.{
  raw_udp, raw_udp_ip_mac, sent_packet, bytes_from, front_len, ip_at, printed, listen, Served,
  serve, sniff, is_answer, message,
}
use eltex_homeworks.RawUdp.Listening.{IsIpHeader, AllSkipped, answer_datagram}
use eltex_homeworks.RawUdp.Serving.{serve-leftover}
use eltex_homeworks.RawUdp.Exchange.{IsUdp, hello-answered}

-- A kernel that takes what the length field says.
abbrev by_length : List ℕ → List ℕ
by_length (_ ∷ _ ∷ _ ∷ _ ∷ h ∷ l ∷ _ ∷ _ ∷ bytes) = take (h * 256 + l - 8) bytes
by_length _ = []

by_length-IsUdp : IsUdp by_length
unfolding bytes_of
by_length-IsUdp = record {
  delivers = λ source dest payload rest small.
      ap (λ n. take n (payload ++ rest))
        (let e : high (8 + length payload) * 256 + low (8 + length payload) - 8
              ≡ length payload + 0 =
            omega arith in
          e)
      ∙ take-append payload rest 0
      ∙ append-nil payload;
}

abbrev zeros : Buffer
zeros i = 0

abbrev ethernet : List ℕ
ethernet = replicate 14 0

abbrev ip_words : List ℕ
ip_words = bytes_of (0x4500 ∷ 284 ∷ 0 ∷ 0 ∷ 0x4011 ∷ 0 ∷ 0x0a0a ∷ 0x0a02 ∷ 0x0a0a ∷ 0x0a03 ∷ [])

ip_words-IsIpHeader : IsIpHeader ip_words
unfolding bytes_of
ip_words-IsIpHeader = record { first = 0x45; starts = refl; protocol = refl; size = refl }

-- The client receives its own packet first.
abbrev own : List (List ℕ × Buffer)
own = (sent_packet raw_udp_ip_mac zeros, zeros) ∷ []

own-AllSkipped : AllSkipped (ip_at raw_udp_ip_mac) own
unfolding is_answer sent_packet receive bytes_of
own-AllSkipped = (refl, tt)

-- raw_udp sends 8 bytes more than its datagram has.
sent_too_much : length (sent_packet raw_udp zeros) ≡ 8 + length message + 8
unfolding sent_packet bytes_from
sent_too_much = refl

sniffed_ports : (sniff (receive (ip_words ++ sent_packet raw_udp zeros) zeros)).source_port ≡ 7777
unfolding sniff receive sent_packet bytes_from bytes_of
sniffed_ports = refl

hello-answered_example :
    (served : Served) × (serve
        (by_length (drop (front_len raw_udp_ip_mac) (sent_packet raw_udp_ip_mac zeros)))
        zeros
        zeros
      ≡ some served)
    × (served.received ≡ codes "hello!")
    × (listen
          (ip_at raw_udp_ip_mac)
          (own ++ ((ethernet ++ ip_words) ++ answer_datagram 264 0 served.reply, zeros) ∷ [])
        ≡ printed (codes "hello! reply"))
hello-answered_example =
    hello-answered by_length by_length-IsUdp raw_udp_ip_mac zeros zeros zeros zeros ethernet
      ip_words 264 0 ip_words-IsIpHeader refl own [] own-AllSkipped

serve-leftover_example :
    (first second : Served) × (serve (codes "secret" ++ 0 ∷ []) zeros zeros ≡ some first)
    × (first.received ≡ codes "secret")
    × (serve (codes "abc") first.buf zeros ≡ some second)
    × (second.received ≡ codes "abc" ++ drop 3 (codes "secret"))
    × (take 12 second.reply ≡ (codes "abc" ++ drop 3 (codes "secret")) ++ codes " reply")
serve-leftover_example =
    serve-leftover (codes "secret") (codes "abc") zeros zeros zeros
      (refl, (refl, (refl, (refl, (refl, (refl, tt)))))) (omega arith) (refl, (refl, (refl, tt)))
      (omega arith)
