-- ===== src/RawUdp/Serving.antt =====
-- 16_sockets/part4_raw/*/server.c: what the server reads and sends back.
use eltex_homeworks.Prelude.{
  ℕ, zero, suc, ◌+◌, ◌-◌, ◌≤◌, ◌<◌, ◌≡◌, refl, sym, ap, ap₂, ◌∙◌, some, List, [], ◌∷◌, ◌++◌, length,
  take, drop, arith, take_all, append_assoc, length-append, length-take, take-append, length-drop,
  take-append-drop, append-nil,
}
use eltex_homeworks.Libc.Text.{Text, codes, HasNo}
use eltex_homeworks.RawSockets.Packet.{Buffer, receive}
use eltex_homeworks.RawUdp.Programs.{bytes_from, c_string, server_buf, reply_size, Served, serve}
use eltex_homeworks.RawUdp.Buffers.{
  receive-append, bytes_from-receive, and_then, c_string-receive, c_string-whole, c_string-Same,
  Same,
}

-- What the server sends behind the text.
abbrev pub suffix : Text
suffix = codes " reply"

-- What the array `reply` held behind that.
abbrev pub behind_reply : Text → Buffer → List ℕ
behind_reply s reply =
    bytes_from reply (length (s ++ (suffix ++ 0 ∷ []))) (reply_size - (length s + 7))

reply_bytes :
    (s : Text) (reply : Buffer)
    → length s < server_buf
    → bytes_from (receive (s ++ (suffix ++ 0 ∷ [])) reply) 0 reply_size
      ≡ (s ++ suffix) ++ 0 ∷ behind_reply s reply
reply_bytes s reply short =
    let size = length-append s (suffix ++ 0 ∷ []) in
    ap (bytes_from (receive (s ++ (suffix ++ 0 ∷ [])) reply) 0) (
      let e : reply_size ≡ length (s ++ (suffix ++ 0 ∷ [])) + (reply_size - (length s + 7)) =
        omega arith in
      e)
    ∙ bytes_from-receive (s ++ (suffix ++ 0 ∷ [])) reply (reply_size - (length s + 7))
    ∙ append_assoc s (suffix ++ 0 ∷ []) (behind_reply s reply)
    ∙ sym (append_assoc s suffix (0 ∷ behind_reply s reply))

abbrev pub served_with : Text → Buffer → Buffer → Served
served_with s b reply = record {
  received = s;
  reply = (s ++ suffix) ++ 0 ∷ behind_reply s reply;
  buf = b;
}

serve-some :
    (datagram : List ℕ) (buf reply : Buffer) (s : Text)
    → c_string (receive (take server_buf datagram) buf) 0 server_buf ≡ some s
    → length s < server_buf
    → serve datagram buf reply ≡ some (served_with s (receive (take server_buf datagram) buf) reply)
unfolding serve
serve-some datagram buf reply s found short =
    rw (found, serve)
      (ap
        (λ r.
          some (record { received = s; reply = r; buf = receive (take server_buf datagram) buf }))
        (reply_bytes s reply short))

-- A text with its NUL.
pub serve-text :
    (s : Text) (buf reply : Buffer)
    → HasNo 0 s
    → length s < server_buf
    → serve (s ++ 0 ∷ []) buf reply ≡ some (served_with s (receive (s ++ 0 ∷ []) buf) reply)
serve-text s buf reply h short =
    let whole : take server_buf (s ++ 0 ∷ []) ≡ s ++ 0 ∷ [] =
      take_all server_buf (s ++ 0 ∷ []) (omega (arith, length-append s (0 ∷ []))) in
    serve-some (s ++ 0 ∷ []) buf reply s
      (ap (λ d. c_string (receive d buf) 0 server_buf) whole
        ∙ c_string-whole s [] buf server_buf h short)
      short
    ∙ ap (λ d. some (served_with s (receive d buf) reply)) whole

HasNo-drop : (c n : ℕ) (s : Text) → HasNo c s → HasNo c (drop n s)
HasNo-drop c zero s h = h
HasNo-drop c (suc n) [] h = h
HasNo-drop c (suc n) (x ∷ s) h = HasNo-drop c n s h.1

module _ (t d : Text) (buf : Buffer) (shorter : length d ≤ length t) where
  abbrev after_text : Buffer
  after_text = receive (t ++ 0 ∷ []) buf

  in_two : t ++ 0 ∷ [] ≡ take (length d) t ++ (drop (length d) t ++ 0 ∷ [])
  in_two =
      ap (λ s. s ++ 0 ∷ []) (sym (take-append-drop (length d) t))
      ∙ append_assoc (take (length d) t) (drop (length d) t) (0 ∷ [])

  tail-Same :
      Same
        (λ j. after_text (length d + j))
        0
        (receive (drop (length d) t ++ 0 ∷ []) (λ j. buf (length (take (length d) t) + j)))
        0
  tail-Same j =
      ap₂ (λ p n. receive p buf (n + (0 + j))) in_two
        (let e : length d ≡ length (take (length d) t) = omega (arith, length-take (length d) t) in
          e)
      ∙ receive-append (take (length d) t) (drop (length d) t ++ 0 ∷ []) buf (0 + j)

  tail_left :
      HasNo 0 t
      → length t < server_buf
      → c_string (λ j. after_text (length d + j)) 0 (server_buf - length d)
        ≡ some (drop (length d) t)
  tail_left h short =
      c_string-Same (λ j. after_text (length d + j)) _ 0 0 (server_buf - length d) tail-Same
      ∙ c_string-whole (drop (length d) t) [] _ (server_buf - length d)
          (HasNo-drop 0 (length d) t h) (omega (arith, length-drop (length d) t))

  leftover_found :
      HasNo 0 t
      → length t < server_buf
      → HasNo 0 d
      → c_string (receive (take server_buf d) after_text) 0 server_buf
        ≡ some (d ++ drop (length d) t)
  unfolding receive
  leftover_found h short k =
      ap₂ (λ p n. c_string (receive p after_text) 0 n)
        (take_all server_buf d (omega arith) ∙ sym (append-nil d))
        (let e : server_buf ≡ length d + (server_buf - length d) = omega arith in e)
      ∙ c_string-receive d [] after_text (server_buf - length d) k
      ∙ ap (and_then d) (tail_left h short)

length-leftover : (t d : Text) → length d ≤ length t → length (d ++ drop (length d) t) ≡ length t
length-leftover t d h = omega (arith, length-append d (drop (length d) t), length-drop (length d) t)

-- A text with its NUL, at most 99 bytes, and then from another client a datagram without one, not longer
-- than the text: the server reads what was sent and the rest of the first client's text, and sends this
-- back to the second client.
pub serve-leftover :
    (t d : Text) (buf reply reply' : Buffer)
    → HasNo 0 t
    → length t < server_buf
    → HasNo 0 d
    → length d ≤ length t
    → (first second : Served) × (serve (t ++ 0 ∷ []) buf reply ≡ some first)
      × (first.received ≡ t)
      × (serve d first.buf reply' ≡ some second)
      × (second.received ≡ d ++ drop (length d) t)
      × (take (length t + 6) second.reply ≡ (d ++ drop (length d) t) ++ codes " reply")
serve-leftover t d buf reply reply' h short k shorter = (
  served_with t (after_text t d buf shorter) reply,
  served_with (d ++ drop (length d) t) (receive (take server_buf d) (after_text t d buf shorter))
      reply',
  serve-text t buf reply h short,
  refl,
  serve-some d (after_text t d buf shorter) reply' (d ++ drop (length d) t)
      (leftover_found t d buf shorter h short k) (omega (arith, length-leftover t d shorter)),
  refl,
  ap
        (λ n.
          take n (
            (d ++ drop (length d) t) ++ suffix ++ 0 ∷ behind_reply (d ++ drop (length d) t) reply'))
        (let e : length t + 6 ≡ length ((d ++ drop (length d) t) ++ suffix) + 0 =
            omega
              (arith, length-leftover t d shorter, length-append (d ++ drop (length d) t) suffix) in
          e)
      ∙ take-append ((d ++ drop (length d) t) ++ suffix) (0 ∷ _) 0
      ∙ append-nil _,
)
