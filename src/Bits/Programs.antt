-- ===== src/Bits/Programs.antt =====
-- 01_bitwise_operations/p1_p2.c, p3.c, p4.c and 03_pointers/p1.c. An int is its 32-bit pattern, a number
-- below 2 ^ 32, of which (num >> i) & 1 is a binary digit also when the int is negative.
use Prim.Native.Nat.{bit_and, bit_or}
use eltex_homeworks.Prelude.{
  ℕ, zero, suc, ◌+◌, ◌*◌, ◌/◌, ◌%◌, ◌^◌, Bool, not, ◌&&◌, ◌||◌, [], ◌∷◌, ◌==◌, if◌then◌else◌,
}
use eltex_homeworks.Prelude.Int.{ℤ, pos, ltb_ℤ}
use eltex_homeworks.Libc.Text.{Text}

-- (num >> i) & 1
abbrev pub bit : ℕ → ℕ → ℕ
bit w i = w / 2 ^ i % 2

-- The loop that prints the bits from i - 1 down to 0, with a space behind every byte.
unfoldable pub print_bits : ℕ → ℕ → Text
print_bits w zero = []
print_bits w (suc i) =
    let rest = print_bits w i in (48 + bit w i) ∷ (if i % 8 == 0 then 32 ∷ rest else rest)

-- p3.c: the count of the ones, from the count so far.
unfoldable pub count_ones : ℕ → ℕ → ℕ → ℕ
count_ones w count zero = count
count_ones w count (suc i) = count_ones w (if bit w i == 1 then count + 1 else count) i

-- p4.c: num = num & 0xff00ffff; num = num | (byte << 16), for a byte from 0 on
unfoldable pub set_byte : ℕ → ℕ → ℕ
set_byte w byte = bit_or (bit_and w 0xff00ffff) (byte * 2 ^ 16 % 2 ^ 32)

-- 03_pointers/p1.c on a little-endian machine: p points to byte 2, and *p = byte stores the low 8 bits.
unfoldable pub store_byte : ℕ → ℕ → ℕ
store_byte w byte = w / 2 ^ 24 * 2 ^ 24 + byte % 2 ^ 8 * 2 ^ 16 + w % 2 ^ 16

-- The test of the byte, in both programs: `scanned` is whether scanf gave one number.
unfoldable pub is_invalid : Bool → ℤ → Bool
is_invalid scanned byte = not scanned && (ltb_ℤ byte (pos 0) || ltb_ℤ (pos 255) byte)
