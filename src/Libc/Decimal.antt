-- ===== src/Libc/Decimal.antt =====
-- The conversion %d of printf and scanf, and atoi. A value that `int` cannot hold has no defined
-- result in C; the model keeps the integer.
use eltex_homeworks.Prelude.{
  ℕ, zero, suc, ◌+◌, ◌-◌, ◌*◌, ◌/◌, ◌%◌, ◌<◌, ◌≡◌, refl, ap, ◌∙◌, Bool, true, false, ◌&&◌, ◌||◌,
  Option, none, some, [], ◌∷◌, ◌++◌, append_assoc, append-nil, arith, ltb, leb, ◌==◌, if◌then◌else◌,
  Bool-cases, inl, inr, length,
}
use eltex_homeworks.Prelude.Int.{ℤ, pos, negsuc}
use eltex_homeworks.Libc.Text.{Text, HasNo, HasNo-append}

abbrev pub is_digit : ℕ → Bool
is_digit c = leb 48 c && leb c 57

-- isspace in the C locale
abbrev pub is_space : ℕ → Bool
is_space c = c == 32 || (leb 9 c && leb c 13)

digits_of : ℕ → ℕ → Text
digits_of zero n = []
digits_of (suc f) n =
    let more = digits_of f (n / 10) ++ (48 + n % 10) ∷ [] in
    if ltb n 10 then (48 + n) ∷ [] else more

unfoldable pub print_ℕ : ℕ → Text
unfolding digits_of
print_ℕ n = digits_of (suc n) n

unfoldable pub print_int : ℤ → Text
unfolding print_ℕ
print_int (pos n) = print_ℕ n
print_int (negsuc n) = 45 ∷ print_ℕ (suc n)

scan_digits : ℕ → Text → ℕ × Text
scan_digits acc [] = (acc, [])
scan_digits acc (c ∷ s) =
    let more = scan_digits (acc * 10 + (c - 48)) s in if is_digit c then more else (acc, c ∷ s)

scan_ℕ : Text → Option (ℕ × Text)
unfolding scan_digits
scan_ℕ [] = none
scan_ℕ (c ∷ s) = if is_digit c then some (scan_digits 0 (c ∷ s)) else none

unfoldable pub skip_spaces : Text → Text
skip_spaces [] = []
skip_spaces (c ∷ s) = if is_space c then skip_spaces s else c ∷ s

negate : Option (ℕ × Text) → Option (ℤ × Text)
negate none = none
negate (some (zero, s)) = some (pos 0, s)
negate (some (suc n, s)) = some (negsuc n, s)

positive : Option (ℕ × Text) → Option (ℤ × Text)
positive none = none
positive (some (n, s)) = some (pos n, s)

signed : Text → Option (ℤ × Text)
unfolding scan_ℕ negate positive
signed [] = none
signed (c ∷ s) =
    if c == 45
    then negate (scan_ℕ s)
    else if c == 43
    then positive (scan_ℕ s)
    else positive (scan_ℕ (c ∷ s))

-- %d of scanf: leading spaces, a sign, and at least one digit; with the rest of the input.
unfoldable pub scan_int : Text → Option (ℤ × Text)
unfolding signed skip_spaces
scan_int s = signed (skip_spaces s)

-- atoi is 0 where no number stands.
unfoldable pub atoi : Text → ℤ
unfolding scan_int
atoi s = elim (scan_int s) [ none ↦ pos 0 | some (z, _) ↦ z ]

-- A text after which a printed number ends.
abbrev pub Ends : Text → Type 0
Ends [] = Unit {0}
Ends (c ∷ s) = is_digit c ≡ false

scan_digits-digits_of :
    (f n : ℕ) (rest : Text) → n < f → scan_digits 0 (digits_of f n ++ rest) ≡ scan_digits n rest
unfolding scan_digits digits_of
scan_digits-digits_of zero n rest h = absurd (omega arith)
scan_digits-digits_of (suc f) n rest h = elim (Bool-cases (ltb n 10)) [
  | inl small ↦ rw small (ground arith)
  | inr big ↦
      rw (big, append_assoc (digits_of f (n / 10)) ((48 + n % 10) ∷ []) rest)
        (scan_digits-digits_of f (n / 10) ((48 + n % 10) ∷ rest) (ground arith) ∙ ground arith)
]

scan_digits-Ends : (n : ℕ) (rest : Text) → Ends rest → scan_digits n rest ≡ (n, rest)
unfolding scan_digits
scan_digits-Ends n [] h = refl
scan_digits-Ends n (c ∷ s) h = ground arith

-- A printed number begins with a digit.
digits_of-head :
    (f n : ℕ) → n < f → (c : ℕ) × (t : Text) × (digits_of f n ≡ c ∷ t) × (is_digit c ≡ true)
unfolding digits_of
digits_of-head zero n h = absurd (omega arith)
digits_of-head (suc f) n h = elim (Bool-cases (ltb n 10)) [
  | inl small ↦ (48 + n, [], rw small, ground arith)
  | inr big ↦
      let (c, t, e, d) = digits_of-head f (n / 10) (ground arith) in
      (c, t ++ (48 + n % 10) ∷ [], rw (big, e) refl, d)
]

scan_ℕ-cons :
    (u : Text) (c : ℕ) (t rest : Text)
    → u ≡ c ∷ t
    → is_digit c ≡ true
    → scan_ℕ (u ++ rest) ≡ some (scan_digits 0 (u ++ rest))
unfolding scan_ℕ
scan_ℕ-cons u c t rest e d = rw e (rw d)

scan_ℕ-print_ℕ : (n : ℕ) (rest : Text) → Ends rest → scan_ℕ (print_ℕ n ++ rest) ≡ some (n, rest)
unfolding print_ℕ
scan_ℕ-print_ℕ n rest h =
    let (c, t, e, d) = digits_of-head (suc n) n (omega arith) in
    scan_ℕ-cons (digits_of (suc n) n) c t rest e d
    ∙ ap some (scan_digits-digits_of (suc n) n rest (omega arith) ∙ scan_digits-Ends n rest h)

-- A digit is neither a space nor a sign.
scan_int-cons :
    (u : Text) (c : ℕ) (t rest : Text)
    → u ≡ c ∷ t
    → is_digit c ≡ true
    → scan_int (u ++ rest) ≡ positive (scan_ℕ (u ++ rest))
unfolding scan_int skip_spaces signed
scan_int-cons u c t rest e d = rw e (ground arith)

-- What %d prints, %d scans, whatever follows that is no digit.
pub scan_int-print_int :
    (z : ℤ) (rest : Text) → Ends rest → scan_int (print_int z ++ rest) ≡ some (z, rest)
unfolding print_int print_ℕ
scan_int-print_int (pos n) rest h =
    let (c, t, e, d) = digits_of-head (suc n) n (omega arith) in
    scan_int-cons (digits_of (suc n) n) c t rest e d
    ∙ unfold positive in ap positive (scan_ℕ-print_ℕ n rest h)
scan_int-print_int (negsuc n) rest h =
    unfold scan_int signed skip_spaces negate in ap negate (scan_ℕ-print_ℕ (suc n) rest h)

digits_of-HasNo : (c : ℕ) → is_digit c ≡ false → (f n : ℕ) → HasNo c (digits_of f n)
unfolding digits_of
digits_of-HasNo c h zero n = tt
digits_of-HasNo c h (suc f) n = elim (Bool-cases (ltb n 10)) [
  | inl small ↦ rw small (ground arith, tt)
  | inr big ↦
      rw big (
        HasNo-append c (digits_of f (n / 10)) _ (digits_of-HasNo c h f (n / 10)) (ground arith, tt))
]

-- %d prints digits and the minus sign only.
pub print_int-HasNo :
    (c : ℕ) → is_digit c ≡ false → (c == 45) ≡ false → (z : ℤ) → HasNo c (print_int z)
unfolding print_int print_ℕ
print_int-HasNo c h k (pos n) = digits_of-HasNo c h (suc n) n
print_int-HasNo c h k (negsuc n) = (k, digits_of-HasNo c h (suc (suc n)) (suc n))

pub scan_int-space : (s : Text) → scan_int (32 ∷ s) ≡ scan_int s
unfolding scan_int skip_spaces
scan_int-space s = refl

pub scan_int-print_int_end : (z : ℤ) → scan_int (print_int z) ≡ some (z, [])
scan_int-print_int_end z = rw (append-nil) at (scan_int-print_int z [] tt)

pub atoi-print_int : (z : ℤ) → atoi (print_int z) ≡ z
unfolding atoi
atoi-print_int z = rw (scan_int-print_int_end z, atoi) refl

pub print_int-length : (z : ℤ) → 0 < length (print_int z)
unfolding print_int print_ℕ
print_int-length (pos n) =
    let (c, t, e, d) = digits_of-head (suc n) n (omega arith) in rw e (omega arith)
print_int-length (negsuc n) = omega arith
