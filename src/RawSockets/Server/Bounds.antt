-- ===== src/RawSockets/Server/Bounds.antt =====
-- 21_raw_sockets/server.c: where the payload that is read and the reply that is copied lie.
use eltex_homeworks.Prelude.{
  ℕ, ◌+◌, ◌-◌, ◌^◌, ◌≤◌, ◌<◌, ◌≡◌, some, none, arith, ltb, ◌==◌, length, false,
}
use eltex_homeworks.Libc.Text.{Text}
use eltex_homeworks.RawSockets.Packet.{
  Buffer, payload_at, udp_len, buf_size, reply_size, reply_text, copied, create_reply_packet,
}
use eltex_homeworks.RawSockets.Server.{udp_len_of, safe_payload_len}

-- If the UDP header of an accepted packet gives a length of at least 8, the payload that the server
-- reads lies within the bytes received, and leaves room for a NUL in the buffer.
safe_payload_len-le :
    (received : ℕ) (b : Buffer) (n : ℕ)
    → udp_len ≤ udp_len_of b
    → udp_len_of b < 2 ^ 16
    → safe_payload_len received b ≡ some n
    → (payload_at b + n ≤ received) × (1 ≤ n) × (payload_at b + n < buf_size)
unfolding safe_payload_len
safe_payload_len-le received b n large word e = ground arith

-- A smaller length wraps round, and the server reads to the end of its buffer.
safe_payload_len-wraps :
    (received : ℕ) (b : Buffer)
    → udp_len_of b < udp_len
    → payload_at b ≤ received
    → safe_payload_len received b ≡ some (buf_size - payload_at b - 1)
unfolding safe_payload_len
safe_payload_len-wraps received b small enough = ground arith

copied_beyond : (msg : Text) → reply_size < length msg → copied msg ≡ none
unfolding copied
copied_beyond msg long =
    let above : ltb (length msg) reply_size ≡ false = ground arith in
    let unequal : (length msg == reply_size) ≡ false = ground arith in rw (above, unequal)

-- A reply of more than `reply_size` bytes makes memcpy read beyond reply_msg.
create_reply_packet-none :
    (b : Buffer) (payload : Text) (counter : ℕ)
    → reply_size < length (reply_text payload counter)
    → create_reply_packet b payload counter ≡ none
unfolding create_reply_packet
create_reply_packet-none b payload counter long =
    rw (copied_beyond (reply_text payload counter) long, create_reply_packet)
