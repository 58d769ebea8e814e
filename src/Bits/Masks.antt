-- ===== src/Bits/Masks.antt =====
-- The bit operations of C on numbers, digit by digit from the lowest one.
use Prim.Native.Nat.{max, bit_and, bit_or, digits, bit_and-bitwise, bit_or-bitwise}
use eltex_homeworks.Prelude.{
  ℕ, zero, suc, ◌+◌, ◌*◌, ◌/◌, ◌%◌, ◌^◌, ◌≤◌, ◌≡◌, refl, ap, ap₂, ◌∙◌, arith, min,
}

-- Any operation on digits: more rounds than there are digits change nothing.
module _ (z : ℕ → ℕ) (f : ℕ → ℕ → ℕ) (base : (b : ℕ) → z b ≡ z (b / 2) * 2 + f 0 (b % 2)) where
  digits_enough : (n m a b : ℕ) → a ≤ n → a ≤ m → digits z f n a b ≡ digits z f m a b
  digits_enough zero zero zero b p q = refl
  digits_enough zero (suc m) zero b p q = refl
  digits_enough (suc n) zero zero b p q = refl
  digits_enough (suc n) (suc m) zero b p q = refl
  digits_enough zero m (suc a) b p q = absurd (omega arith)
  digits_enough (suc n) zero (suc a) b p q = absurd (omega arith)
  digits_enough (suc n) (suc m) (suc a) b p q =
      ap (λ (x : ℕ). x * 2 + f (suc a % 2) (b % 2))
        (digits_enough n m (suc a / 2) (b / 2) (omega arith) (omega arith))

  lowest_digit :
      (a b : ℕ) → digits z f a a b ≡ digits z f (a / 2) (a / 2) (b / 2) * 2 + f (a % 2) (b % 2)
  lowest_digit zero b = base b
  lowest_digit (suc a) b =
      ap (λ (x : ℕ). x * 2 + f (suc a % 2) (b % 2))
        (digits_enough a (suc a / 2) (suc a / 2) (b / 2) (omega arith) (omega arith))

and_lowest : (a b : ℕ) → bit_and a b ≡ bit_and (a / 2) (b / 2) * 2 + min (a % 2) (b % 2)
and_lowest a b =
    rw (bit_and-bitwise a b, bit_and-bitwise (a / 2) (b / 2))
      (lowest_digit (λ b. zero) min (λ b. omega arith) a b)

or_lowest : (a b : ℕ) → bit_or a b ≡ bit_or (a / 2) (b / 2) * 2 + max (a % 2) (b % 2)
or_lowest a b =
    rw (bit_or-bitwise a b, bit_or-bitwise (a / 2) (b / 2))
      (lowest_digit (λ b. b) max (λ b. omega arith) a b)

-- `k` more low digits: those of `w`, zeros or ones.
abbrev pub keep : ℕ → ℕ → ℕ → ℕ
keep zero w x = x
keep (suc k) w x = keep k (w / 2) x * 2 + w % 2

abbrev pub zeros : ℕ → ℕ → ℕ
zeros zero x = x
zeros (suc k) x = zeros k x * 2

abbrev pub ones : ℕ → ℕ → ℕ
ones zero x = x
ones (suc k) x = ones k x * 2 + 1

abbrev pub high : ℕ → ℕ → ℕ
high zero w = w
high (suc k) w = high k (w / 2)

-- The same with the halves that are known.
and_halves :
    (a b x y : ℕ) → a / 2 ≡ x → b / 2 ≡ y → bit_and a b ≡ bit_and x y * 2 + min (a % 2) (b % 2)
and_halves a b x y p q =
    and_lowest a b ∙ ap₂ (λ (u v : ℕ). bit_and u v * 2 + min (a % 2) (b % 2)) p q

or_halves :
    (a b x y : ℕ) → a / 2 ≡ x → b / 2 ≡ y → bit_or a b ≡ bit_or x y * 2 + max (a % 2) (b % 2)
or_halves a b x y p q = or_lowest a b ∙ ap₂ (λ (u v : ℕ). bit_or u v * 2 + max (a % 2) (b % 2)) p q

and_odd : (w y : ℕ) → bit_and w (y * 2 + 1) ≡ bit_and (w / 2) y * 2 + w % 2
and_odd w y = omega (arith, and_halves w (y * 2 + 1) (w / 2) y (omega arith) (omega arith))

and_even : (w y : ℕ) → bit_and w (y * 2) ≡ bit_and (w / 2) y * 2
and_even w y = omega (arith, and_halves w (y * 2) (w / 2) y (omega arith) (omega arith))

or_even : (w x y : ℕ) → bit_or (x * 2 + w % 2) (y * 2) ≡ bit_or x y * 2 + w % 2
or_even w x y = omega (arith, or_halves (x * 2 + w % 2) (y * 2) x y (omega arith) (omega arith))

or_low : (w x y : ℕ) → bit_or (x * 2) (y * 2 + w % 2) ≡ bit_or x y * 2 + w % 2
or_low w x y = omega (arith, or_halves (x * 2) (y * 2 + w % 2) x y (omega arith) (omega arith))

pub and-ones : (k w m : ℕ) → bit_and w (ones k m) ≡ keep k w (bit_and (high k w) m)
and-ones zero w m = refl
and-ones (suc k) w m = and_odd w (ones k m) ∙ ap (λ (x : ℕ). x * 2 + w % 2) (and-ones k (w / 2) m)

pub and-zeros : (k w m : ℕ) → bit_and w (zeros k m) ≡ zeros k (bit_and (high k w) m)
and-zeros zero w m = refl
and-zeros (suc k) w m = and_even w (zeros k m) ∙ ap (λ (x : ℕ). x * 2) (and-zeros k (w / 2) m)

pub or-zeros : (k w x y : ℕ) → bit_or (keep k w x) (zeros k y) ≡ keep k w (bit_or x y)
or-zeros zero w x y = refl
or-zeros (suc k) w x y =
    or_even w (keep k (w / 2) x) (zeros k y)
    ∙ ap (λ (z : ℕ). z * 2 + w % 2) (or-zeros k (w / 2) x y)

pub or-keep : (k w x y : ℕ) → bit_or (zeros k x) (keep k w y) ≡ keep k w (bit_or x y)
or-keep zero w x y = refl
or-keep (suc k) w x y =
    or_low w (zeros k x) (keep k (w / 2) y) ∙ ap (λ (z : ℕ). z * 2 + w % 2) (or-keep k (w / 2) x y)

pub or-zero : (x : ℕ) → bit_or x 0 ≡ x
or-zero x = by_digits x x (omega arith)
  where
    by_digits : (n x : ℕ) → x ≤ n → bit_or x 0 ≡ x
    by_digits n zero h = refl
    by_digits zero (suc x) h = absurd (omega arith)
    by_digits (suc n) (suc x) h =
        omega (arith, or_lowest (suc x) 0, by_digits n (suc x / 2) (omega arith))

pub and-zero : (x : ℕ) → bit_and x 0 ≡ 0
and-zero x = by_digits x x (omega arith)
  where
    by_digits : (n x : ℕ) → x ≤ n → bit_and x 0 ≡ 0
    by_digits n zero h = refl
    by_digits zero (suc x) h = absurd (omega arith)
    by_digits (suc n) (suc x) h =
        omega (arith, and_lowest (suc x) 0, by_digits n (suc x / 2) (omega arith))

-- In numbers.
pub keep_byte : (w x : ℕ) → keep 8 w x ≡ x * 2 ^ 8 + w % 2 ^ 8
keep_byte w x = omega arith

pub keep_word : (w x : ℕ) → keep 16 w x ≡ x * 2 ^ 16 + w % 2 ^ 16
keep_word w x = omega arith

pub high_top : (w : ℕ) → high 24 w ≡ w / 2 ^ 24
high_top w = omega arith
