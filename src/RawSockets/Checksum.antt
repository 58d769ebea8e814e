-- ===== src/RawSockets/Checksum.antt =====
-- ip_checksum of 21_raw_sockets (server.c and client.c have the same function), over the ten 16-bit
-- words of an IP header as the network orders their bytes; ntohs and htons then cancel.
pub mod Verify
use eltex_homeworks.Prelude.{
  ℕ, zero, suc, ◌+◌, ◌-◌, ◌/◌, ◌%◌, ◌^◌, List, [], ◌∷◌, ltb, if◌then◌else◌, ◌==◌,
}

-- for (...) sum += ntohs(ptr[i]);
unfoldable pub sum_words : List ℕ → ℕ
sum_words [] = 0
sum_words (w ∷ ws) = (w + sum_words ws) % 2 ^ 32

-- while (sum >> 16) sum = (sum & 0xFFFF) + (sum >> 16); on fuel
unfoldable pub fold_carries : ℕ → ℕ → ℕ
fold_carries zero sum = sum
fold_carries (suc fuel) sum =
    let rest = fold_carries fuel ((sum % 2 ^ 16 + sum / 2 ^ 16) % 2 ^ 32) in
    if sum / 2 ^ 16 == 0 then sum else rest

-- Three rounds are enough for any 32-bit sum.
abbrev pub fold_rounds : ℕ
fold_rounds = 3

-- (uint16_t)~sum
unfoldable pub complement : ℕ → ℕ
complement sum = 2 ^ 16 - 1 - sum % 2 ^ 16

unfoldable pub ip_checksum : List ℕ → ℕ
ip_checksum words = complement (fold_carries fold_rounds (sum_words words))
