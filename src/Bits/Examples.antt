-- ===== src/Bits/Examples.antt =====
-- 01_bitwise_operations and 03_pointers/p1.c: tests, and the theorems at concrete inputs.
use eltex_homeworks.Prelude.{◌≡◌, refl, true, false, arith}
use eltex_homeworks.Prelude.Int.{pos}
use eltex_homeworks.Libc.Text.{codes}
use eltex_homeworks.Bits.Agree.{read_bits, count_char, print_bits-reads, set_byte-store_byte}
use eltex_homeworks.Bits.Programs.{print_bits, count_ones, set_byte, store_byte, is_invalid}

five_printed : print_bits 5 32 ≡ codes "00000000 00000000 00000000 00000101 "
unfolding print_bits
five_printed = refl

three_ones : count_ones 0x80000101 0 32 ≡ 3
unfolding count_ones
three_ones = refl

both_set : set_byte 0x12345678 0xab ≡ 0x12ab5678
unfolding set_byte
both_set = refl

both_store : store_byte 0x12345678 0xab ≡ 0x12ab5678
unfolding store_byte
both_store = refl

-- A number beyond 255 that was scanned is accepted: it sets bits of the other bytes in one program.
too_large_accepted : is_invalid true (pos 300) ≡ false
unfolding is_invalid
too_large_accepted = refl

too_large_spills : set_byte 0 300 ≡ 0x12c0000
unfolding set_byte
too_large_spills = refl

set_byte-store_byte_example : set_byte 0x12345678 0xab ≡ store_byte 0x12345678 0xab
set_byte-store_byte_example = set_byte-store_byte 0x12345678 0xab (omega arith) (omega arith)

print_bits-reads_example :
    (read_bits 0 (print_bits 77 32) ≡ 77) × (count_ones 77 0 32 ≡ count_char 49 (print_bits 77 32))
print_bits-reads_example = print_bits-reads 77 (omega arith)
