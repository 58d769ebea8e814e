-- ===== src/RawUdp/Exchange.antt =====
-- 16_sockets/part4_raw: from a client to the server and back.
use eltex_homeworks.Prelude.{
  ℕ, ◌+◌, ◌-◌, ◌^◌, ◌≤◌, ◌<◌, ◌≡◌, refl, subst, ap, ◌∙◌, some, List, [], ◌∷◌, ◌++◌, length, drop,
  arith, length-append,
}
use eltex_homeworks.Libc.Text.{Text, codes, HasNo, HasNo-append}
use eltex_homeworks.RawSockets.Packet.{Buffer, receive, bytes_of}
use eltex_homeworks.RawUdp.Programs.{
  RawClient, raw_udp, raw_udp_ip, raw_udp_ip_mac, message, bytes_from, sent_packet, front_len,
  ip_at, printed, listen, server_buf, reply_size, Served, serve,
}
use eltex_homeworks.RawUdp.Buffers.{length-bytes_from}
use eltex_homeworks.RawUdp.Listening.{IsIpHeader, AllSkipped, answer_datagram, listen-answer}
use eltex_homeworks.RawUdp.Serving.{suffix, behind_reply, served_with, serve-text}

abbrev answer_packet : Text → List ℕ → List ℕ → ℕ → ℕ → Buffer → List ℕ
answer_packet s link h len check reply =
    (link ++ h) ++ answer_datagram len check ((s ++ suffix) ++ 0 ∷ behind_reply s reply)

length-answer_packet :
    (s : Text) (link h : List ℕ) (len check : ℕ) (reply : Buffer)
    → length s < server_buf
    → length (answer_packet s link h len check reply) ≡ length link + length h + (8 + reply_size)
unfolding bytes_of
length-answer_packet s link h len check reply short = omega (
  arith,
  length-append (link ++ h) (answer_datagram len check ((s ++ suffix) ++ 0 ∷ behind_reply s reply)),
  length-append link h,
  length-append (s ++ suffix) (0 ∷ behind_reply s reply),
  length-append s suffix,
  length-bytes_from reply (length (s ++ (suffix ++ 0 ∷ []))) (reply_size - (length s + 7)),
)

answered :
    (s : Text) (link h : List ℕ) (len check : ℕ) (reply stale : Buffer)
    (before after : List (List ℕ × Buffer))
    → IsIpHeader h
    → HasNo 0 s
    → length s < server_buf
    → length link ≤ 14
    → AllSkipped (length link) before
    → listen (length link) (before ++ (answer_packet s link h len check reply, stale) ∷ after)
      ≡ printed (s ++ suffix)
answered s link h len check reply stale before after ip_header text short near skipped =
    let size = ip_header.size in
    listen-answer link h (s ++ suffix) (behind_reply s reply) len check stale ip_header before after
      skipped (HasNo-append 0 s suffix text (refl, (refl, (refl, (refl, (refl, (refl, tt)))))))
      (omega (arith, length-answer_packet s link h len check reply short))

abbrev hello : Text
hello = codes "hello!"

hello-HasNo : HasNo 0 hello
hello-HasNo = (refl, (refl, (refl, (refl, (refl, (refl, tt))))))

near-le : (c : RawClient) (n : ℕ) → n ≡ ip_at c → n ≤ 14
near-le raw_udp n h = omega arith
near-le raw_udp_ip n h = omega arith
near-le raw_udp_ip_mac n h = omega arith

-- How the kernel gives a datagram without a checksum to a socket: by its length field.
pub record IsUdp (deliver : List ℕ → List ℕ) : Type 0 where
  pub delivers :
      (source dest : ℕ) (payload rest : List ℕ)
      → 8 + length payload < 2 ^ 16
      → deliver (bytes_of (source ∷ dest ∷ (8 + length payload) ∷ 0 ∷ []) ++ (payload ++ rest))
        ≡ payload

module _ (deliver : List ℕ → List ℕ) (udp : IsUdp deliver) where
  sent-delivered :
      (c : RawClient) (packet : Buffer)
      → deliver (drop (front_len c) (sent_packet c packet)) ≡ message
  unfolding sent_packet bytes_of bytes_from receive
  sent-delivered raw_udp packet =
      udp.delivers 7777 9999 message (bytes_from packet 15 8) (omega arith)
  sent-delivered raw_udp_ip packet = udp.delivers 7777 9999 message [] (omega arith)
  sent-delivered raw_udp_ip_mac packet = udp.delivers 7777 9999 message [] (omega arith)

  -- Any of the three clients sends "hello!" to the server, whatever its arrays hold, and the kernel
  -- delivers by the length field; the server reads "hello!", and the client prints "hello! reply" from the
  -- packet with the answer, whatever IP header it has in front and whatever packets that are not for the
  -- client come before.
  pub hello-answered :
      (c : RawClient) (packet buf reply stale : Buffer) (link h : List ℕ) (len check : ℕ)
      → IsIpHeader h
      → length link ≡ ip_at c
      → (before after : List (List ℕ × Buffer)) → AllSkipped (ip_at c) before
      → (served : Served) × (serve (deliver (drop (front_len c) (sent_packet c packet))) buf reply
          ≡ some served)
        × (served.received ≡ codes "hello!")
        × (listen
              (ip_at c)
              (before ++ ((link ++ h) ++ answer_datagram len check served.reply, stale) ∷ after)
            ≡ printed (codes "hello! reply"))
  hello-answered c packet buf reply stale link h len check ip_header near before after skipped = (
    served_with hello (receive (hello ++ 0 ∷ []) buf) reply,
    ap (λ d. serve d buf reply) (sent-delivered c packet)
        ∙ serve-text hello buf reply hello-HasNo (omega arith),
    refl,
    subst
        (λ ip.
          AllSkipped ip before
          → listen ip (before ++ (answer_packet hello link h len check reply, stale) ∷ after)
            ≡ printed (hello ++ suffix))
        near
        (λ k.
          answered hello link h len check reply stale before after ip_header hello-HasNo
            (omega arith) (near-le c (length link) near) k)
        skipped,
  )
