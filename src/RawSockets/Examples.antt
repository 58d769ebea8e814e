-- ===== src/RawSockets/Examples.antt =====
-- 21_raw_sockets: tests, and the theorems at concrete inputs.
use eltex_homeworks.Prelude.{
  ℕ, ◌≡◌, refl, Bool, true, false, some, none, List, [], ◌∷◌, ◌++◌, arith, length, replicate,
}
use eltex_homeworks.Libc.Text.{codes, str_eq}
use eltex_homeworks.Libc.Decimal.{print_int}
use eltex_homeworks.RawSockets.Checksum.{ip_checksum, sum_words, fold_carries, complement}
use eltex_homeworks.RawSockets.Checksum.Verify.{with_check, ip_checksum-verifies}
use eltex_homeworks.RawSockets.Clients.{
  Key, Client, no_clients, find_client, claim, get_client_index, modify, count_message,
  reset_client, counter_at, serve_client, clients_after, counted,
}
use eltex_homeworks.RawSockets.Clients.Claims.{lookup}
use eltex_homeworks.RawSockets.Clients.Counts.{serve_all, AllServed, serve_all-tally, tally}
use eltex_homeworks.RawSockets.Packet.{Buffer, Mac, receive, reply_text}
use eltex_homeworks.RawSockets.Server.{handle_packet, replied}
use eltex_homeworks.RawSockets.Client.{request_packet, hear_packet, heard}
use eltex_homeworks.RawSockets.Echo.{echo}

abbrev front : List ℕ
front = 0x4500 ∷ 34 ∷ 0 ∷ 0 ∷ 0x4011 ∷ []

abbrev back : List ℕ
back = 0x0a0a ∷ 0x0a03 ∷ 0x0a0a ∷ 0x0a02 ∷ []

checksum_runs : ip_checksum (with_check front 0 back) ≡ 0x52b3
unfolding ip_checksum sum_words fold_carries complement
checksum_runs = refl

ip_checksum-verifies_example :
    ip_checksum (with_check front (ip_checksum (with_check front 0 back)) back) ≡ 0
ip_checksum-verifies_example = ip_checksum-verifies front back (omega arith)

abbrev alice : Key
alice = record { ip = 0x0a0a0a03; port = 7777 }

abbrev bob : Key
bob = record { ip = 0x0a0a0a04; port = 7777 }

abbrev history : List (Key × Bool)
history = (alice, false) ∷ (bob, false) ∷ (alice, false) ∷ (bob, true) ∷ (bob, false) ∷ []

history_counts :
    (lookup alice (serve_all history no_clients) ≡ some 2)
    × (lookup bob (serve_all history no_clients) ≡ some 1)
unfolding lookup serve_all serve_client get_client_index find_client claim count_message
    reset_client modify counter_at clients_after
history_counts = (refl, refl)

served : AllServed history no_clients
unfolding lookup serve_all serve_client get_client_index find_client claim count_message
    reset_client modify counter_at clients_after
served = (refl, (refl, (refl, (refl, (refl, tt)))))

serve_all-tally_example : lookup alice (serve_all history no_clients) ≡ tally alice history none
serve_all-tally_example = serve_all-tally alice history served

abbrev mac : ℕ → Mac
mac n = record { m0 = 0; m1 = 0x11; m2 = 0x22; m3 = 0x33; m4 = 0x44; m5 = n }

abbrev empty : Buffer
empty i = 0

-- alice's table after her first message
abbrev one_message : List Client
one_message =
    record { key = alice; counter = 1; used = true }
    ∷ replicate 9 (record { key = record { ip = 0; port = 0 }; counter = 0; used = false })

first_message : serve_client alice false no_clients ≡ counted 1 one_message
unfolding serve_client get_client_index find_client claim count_message modify counter_at
first_message = refl

hi_length : length (reply_text (codes "hi") 1) ≡ 4
unfolding reply_text print_int
hi_length = refl

hi_other : str_eq (codes "hi") (codes "quit") ≡ false
unfolding str_eq
hi_other = refl

echo_example :
    (packet : List ℕ) × (handle_packet
        (length (request_packet (mac 1) (mac 0x55) 0x0a0a 0x0a03 (codes "hi")))
        (receive (request_packet (mac 1) (mac 0x55) 0x0a0a 0x0a03 (codes "hi")) empty)
        no_clients
      ≡ replied one_message (some packet))
    × (hear_packet 0x0a0a0a03 packet empty ≡ heard (reply_text (codes "hi") 1))
echo_example =
    echo (mac 1) (mac 0x55) 0x0a0a 0x0a03 (codes "hi") empty empty no_clients one_message 1
      (omega arith) (omega arith) (refl, (refl, tt)) (omega arith) hi_other first_message
      (omega (arith, hi_length))

-- A packet with an IP header of 20 bytes and the length `n` in its UDP header.
abbrev with_udp_len : ℕ → Buffer
with_udp_len n = receive (replicate 14 0 ++ 0x45 ∷ replicate 24 0 ++ n ∷ []) empty
