-- ===== src/Bits/Agree.antt =====
-- 01_bitwise_operations and 03_pointers/p1.c: the printed bits, their count, and the two ways to set a byte.
use Prim.Native.Nat.{bit_and, bit_or}
use native.Mathlib.Nat.{pow-suc, div-div-eq-div-mul}
use eltex_homeworks.Prelude.{
  ℕ, zero, suc, ◌+◌, ◌-◌, ◌*◌, ◌/◌, ◌%◌, ◌^◌, ◌<◌, ◌≡◌, refl, sym, ap, ap₂, ◌∙◌, Bool, true, false,
  [], ◌∷◌, ◌==◌, if◌then◌else◌, arith,
}
use eltex_homeworks.Libc.Text.{Text}
use eltex_homeworks.Bits.Programs.{bit, print_bits, count_ones, set_byte, store_byte}
use eltex_homeworks.Bits.Masks.{
  keep, zeros, ones, high, and-ones, and-zeros, or-zeros, or-keep, or-zero, and-zero, keep_byte,
  keep_word, high_top,
}

-- 0xff00ffff, from the lowest digit on.
masked : (w : ℕ) → bit_and w 0xff00ffff ≡ keep 16 w (zeros 8 (keep 8 (high 24 w) 0))
masked w =
    and-ones 16 w (zeros 8 (ones 8 0))
    ∙ ap (keep 16 w) (
        and-zeros 8 (high 16 w) (ones 8 0)
        ∙ ap (zeros 8) (and-ones 8 (high 24 w) 0 ∙ ap (keep 8 (high 24 w)) (and-zero (high 32 w))))

placed : (byte : ℕ) → byte < 256 → keep 8 byte 0 ≡ byte
placed byte h = keep_byte byte 0 ∙ omega arith

-- The mask with & and |, and the write through a pointer to the byte, give the same number, for every
-- 32-bit pattern and every byte.
pub set_byte-store_byte :
    (w byte : ℕ) → w < 2 ^ 32 → byte < 256 → set_byte w byte ≡ store_byte w byte
unfolding set_byte store_byte
set_byte-store_byte w byte h k =
    let top = keep 8 (high 24 w) 0 in
    ap₂ bit_or (masked w) (let e : byte * 2 ^ 16 % 2 ^ 32 ≡ zeros 16 byte = omega arith in e)
    ∙ or-zeros 16 w (zeros 8 top) byte
    ∙ ap (keep 16 w) (
        ap (bit_or (zeros 8 top)) (sym (placed byte k))
        ∙ or-keep 8 byte top 0
        ∙ ap (keep 8 byte) (or-zero top))
    ∙ keep_word w (keep 8 byte top)
    ∙ omega (arith, keep_byte byte top, keep_byte (high 24 w) 0, high_top w)

-- The number that binary digits stand for; other characters are passed over.
abbrev pub read_bits : ℕ → Text → ℕ
read_bits acc [] = acc
read_bits acc (c ∷ s) = read_bits (if c == 32 then acc else acc * 2 + (c - 48)) s

abbrev pub count_char : ℕ → Text → ℕ
count_char c [] = 0
count_char c (x ∷ s) = (if x == c then 1 else 0) + count_char c s

halve : (i w : ℕ) → w / 2 ^ suc i ≡ w / 2 ^ i / 2
halve i w = sym (div-div-eq-div-mul w (2 ^ i) 2 ∙ ap (λ (m : ℕ). w / m) (sym (pow-suc 2 i)))

read_bits-space :
    (acc : ℕ) (b : Bool) (s : Text) → read_bits acc (if b then 32 ∷ s else s) ≡ read_bits acc s
read_bits-space acc true s = refl
read_bits-space acc false s = refl

-- One more digit.
read_digit : (acc i w : ℕ) → acc ≡ w / 2 ^ suc i → acc * 2 + bit w i ≡ w / 2 ^ i
read_digit acc i w h = omega (arith, h ∙ halve i w)

not_space : (x : ℕ) → ((48 + x) == 32) ≡ false
not_space x = ground arith

read_bits-from : (w i acc : ℕ) → acc ≡ w / 2 ^ i → read_bits acc (print_bits w i) ≡ w
unfolding print_bits
read_bits-from w zero acc h = omega arith
read_bits-from w (suc i) acc h =
    ap
      (λ b.
        read_bits (if b then acc else acc * 2 + (48 + bit w i - 48))
          (if i % 8 == 0 then 32 ∷ print_bits w i else print_bits w i))
      (not_space (bit w i))
    ∙ (read_bits-space (acc * 2 + (48 + bit w i - 48)) (i % 8 == 0) (print_bits w i)
        ∙ read_bits-from w i (acc * 2 + (48 + bit w i - 48)) (omega (arith, read_digit acc i w h)))

count_char-space : (b : Bool) (s : Text) → count_char 49 (if b then 32 ∷ s else s) ≡ count_char 49 s
count_char-space true s = omega arith
count_char-space false s = refl

count_ones-print_bits :
    (w count i : ℕ) → count_ones w count i ≡ count + count_char 49 (print_bits w i)
unfolding count_ones print_bits
count_ones-print_bits w count zero = omega arith
count_ones-print_bits w count (suc i) =
    count_ones-print_bits w (if bit w i == 1 then count + 1 else count) i
    ∙ ground (arith, count_char-space (i % 8 == 0) (print_bits w i))

-- The 32 bits that are printed are those of the number: reading them gives it back. And the count of the
-- ones is the number of ones that are printed.
pub print_bits-reads :
    (w : ℕ)
    → w < 2 ^ 32
    → (read_bits 0 (print_bits w 32) ≡ w) × (count_ones w 0 32 ≡ count_char 49 (print_bits w 32))
print_bits-reads w h =
    (read_bits-from w 32 0 (omega arith), count_ones-print_bits w 0 32 ∙ omega arith)
