-- ===== src/Libc/Text.antt =====
-- C strings as lists of nonzero bytes (the terminating NUL is not part of the list), and the
-- functions of string.h that the programs call on them.
use eltex_homeworks.Prelude.{
  ℕ, ◌-◌, ◌<◌, ◌≡◌, ap, refl, Bool, true, false, ◌&&◌, ◌||◌, Option, none, some, List, [], ◌∷◌,
  ◌++◌, arith, ltb, ◌==◌, if◌then◌else◌, length, take, length-take,
}
use Prim.Native.Char.{code}
use Prim.Native.String.{String}

abbrev pub Text : Type 0
Text = List ℕ

-- A literal of the source.
abbrev pub codes : String → Text
codes String.[] = []
codes (String.◌∷◌ c s) = code c ∷ codes s

-- strcmp(a, b) == 0
unfoldable pub str_eq : Text → Text → Bool
str_eq [] [] = true
str_eq [] (b ∷ bs) = false
str_eq (a ∷ as') [] = false
str_eq (a ∷ as') (b ∷ bs) = a == b && str_eq as' bs

pub str_eq_refl : (a : Text) → str_eq a a ≡ true
unfolding str_eq
str_eq_refl [] = refl
str_eq_refl (a ∷ as') = ground (arith, str_eq_refl as')

pub str_eq_eq : (a b : Text) → str_eq a b ≡ true → a ≡ b
unfolding str_eq
str_eq_eq [] [] h = refl
str_eq_eq [] (b ∷ bs) h = cc
str_eq_eq (a ∷ as') [] h = cc
str_eq_eq (a ∷ as') (b ∷ bs) h = ground (arith, str_eq_eq as' bs)

-- strcmp(a, b) < 0, on unsigned bytes
unfoldable pub str_lt : Text → Text → Bool
str_lt [] [] = false
str_lt [] (b ∷ bs) = true
str_lt (a ∷ as') [] = false
str_lt (a ∷ as') (b ∷ bs) = if ltb a b then true else (a == b && str_lt as' bs)

-- The rest of `s` behind the prefix `p`.
unfoldable pub strip : Text → Text → Option Text
strip [] s = some s
strip (c ∷ p) [] = none
strip (c ∷ p) (d ∷ s) = if c == d then strip p s else none

-- strncmp(s, p, strlen(p)) == 0
unfoldable pub starts_with : Text → Text → Bool
starts_with [] s = true
starts_with (c ∷ p) [] = false
starts_with (c ∷ p) (d ∷ s) = c == d && starts_with p s

strip-append : (p s : Text) → strip p (p ++ s) ≡ some s
unfolding strip
strip-append [] s = refl
strip-append (c ∷ p) s = ground (arith, strip-append p s)

starts_with-append : (p s : Text) → starts_with p (p ++ s) ≡ true
unfolding starts_with
starts_with-append [] s = refl
starts_with-append (c ∷ p) s = ground (arith, starts_with-append p s)

-- s[strcspn(s, "c")] = '\0'
unfoldable pub cut_at : ℕ → Text → Text
cut_at c [] = []
cut_at c (d ∷ s) = if c == d then [] else d ∷ cut_at c s

-- What snprintf leaves in a buffer of `size` bytes.
abbrev pub snprintf : ℕ → Text → Text
snprintf size s = take (size - 1) s

length-snprintf : (size : ℕ) (s : Text) → 0 < size → length (snprintf size s) < size
length-snprintf size s h = omega (arith, length-take (size - 1) s)

-- The byte does not occur.
abbrev pub HasNo : ℕ → Text → Type 0
HasNo c [] = Unit {0}
HasNo c (x ∷ s) = ((c == x) ≡ false) × HasNo c s

pub cut_at-HasNo : (c : ℕ) (s : Text) → HasNo c s → cut_at c s ≡ s
unfolding cut_at
cut_at-HasNo c [] h = refl
cut_at-HasNo c (x ∷ s) h = rw h.0 (ap (◌∷◌ x) (cut_at-HasNo c s h.1))

pub cut_at-append : (c : ℕ) (s rest : Text) → HasNo c s → cut_at c (s ++ c ∷ rest) ≡ s
unfolding cut_at
cut_at-append c [] rest h = ground arith
cut_at-append c (x ∷ s) rest h = rw h.0 (ap (◌∷◌ x) (cut_at-append c s rest h.1))

pub HasNo-append : (c : ℕ) (s t : Text) → HasNo c s → HasNo c t → HasNo c (s ++ t)
HasNo-append c [] t h k = k
HasNo-append c (x ∷ s) t h k = (h.0, HasNo-append c s t h.1 k)

abbrev pub occurs : ℕ → Text → Bool
occurs c [] = false
occurs c (x ∷ s) = c == x || occurs c s

-- The same by a test, for literals.
pub HasNo-occurs : (c : ℕ) (s : Text) → occurs c s ≡ false → HasNo c s
HasNo-occurs c [] h = tt
HasNo-occurs c (x ∷ s) h = (ground arith, HasNo-occurs c s (ground arith))
