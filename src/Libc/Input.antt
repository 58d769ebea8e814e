-- ===== src/Libc/Input.antt =====
-- The input of a program, as the bytes that are still to be read: scanf of %Ns, getchar and fgets.
use eltex_homeworks.Prelude.{
  ℕ, zero, suc, ◌+◌, ◌-◌, ◌≤◌, ◌<◌, ◌≡◌, refl, ap, true, false, Option, none, some, [], ◌∷◌, ◌++◌,
  ◌==◌, if◌then◌else◌, arith, length,
}
use eltex_homeworks.Libc.Text.{Text, HasNo}
use eltex_homeworks.Libc.Decimal.{is_space, skip_spaces}

-- At most `width` bytes up to a space, with the input behind them.
unfoldable pub word : ℕ → Text → Text × Text
word zero s = ([], s)
word (suc width) [] = ([], [])
word (suc width) (c ∷ s) =
    let (w, rest) = word width s in if is_space c then ([], c ∷ s) else (c ∷ w, rest)

some_word : ℕ → Text → Option (Text × Text)
some_word width [] = none
some_word width (c ∷ s) = some (word width (c ∷ s))

-- scanf("%Ns", w): leading spaces are skipped; at the end of the input nothing is stored.
unfoldable pub scan_word : ℕ → Text → Option (Text × Text)
unfolding some_word skip_spaces
scan_word width s = some_word width (skip_spaces s)

-- while (getchar() != c); it never ends if no such byte comes.
unfoldable pub skip_past : ℕ → Text → Option Text
skip_past c [] = none
skip_past c (d ∷ s) = if d == c then some s else skip_past c s

-- What fgets reads: up to a newline, with it, and at most `n` bytes.
line : ℕ → Text → Text × Text
line zero s = ([], s)
line (suc n) [] = ([], [])
line (suc n) (c ∷ s) = let (l, rest) = line n s in if c == 10 then (c ∷ [], s) else (c ∷ l, rest)

-- fgets(buffer, size, stdin), with the input behind the line; `none` for NULL, at the end of the input.
unfoldable pub fgets : ℕ → Text → Option (Text × Text)
unfolding line
fgets size [] = none
fgets size (c ∷ s) = some (line (size - 1) (c ∷ s))

abbrev pub NoSpace : Text → Type 0
NoSpace [] = Unit {0}
NoSpace (c ∷ s) = (is_space c ≡ false) × NoSpace s

word-append :
    (width : ℕ) (w : Text) (c : ℕ) (rest : Text)
    → NoSpace w
    → is_space c ≡ true
    → length w ≤ width
    → word width (w ++ c ∷ rest) ≡ (w, c ∷ rest)
unfolding word
word-append zero [] c rest n h le = refl
word-append (suc width) [] c rest n h le = rw h refl
word-append zero (x ∷ w) c rest n h le = absurd (omega arith)
word-append (suc width) (x ∷ w) c rest (nx, n) h le =
    rw (nx, word-append width w c rest n h (omega arith)) refl

word-long : (width : ℕ) (u v : Text) → NoSpace u → length u ≡ width → word width (u ++ v) ≡ (u, v)
unfolding word
word-long zero [] v n h = refl
word-long zero (x ∷ u) v n h = absurd (omega arith)
word-long (suc width) [] v n h = absurd (omega arith)
word-long (suc width) (x ∷ u) v (nx, n) h = rw (nx, word-long width u v n (omega arith)) refl

-- A word that fits is read as it was typed.
pub scan_word-append :
    (width : ℕ) (w : Text) (c : ℕ) (rest : Text)
    → 0 < length w
    → NoSpace w
    → is_space c ≡ true
    → length w ≤ width
    → scan_word width (w ++ c ∷ rest) ≡ some (w, c ∷ rest)
unfolding scan_word
scan_word-append width [] c rest ne n h le = absurd (omega arith)
scan_word-append width (x ∷ w) c rest ne (nx, n) h le =
    rw nx (ap some (word-append width (x ∷ w) c rest (nx, n) h le))

pub scan_word-space :
    (width c : ℕ) (s : Text) → is_space c ≡ true → scan_word width (c ∷ s) ≡ scan_word width s
unfolding scan_word
scan_word-space width c s h = rw h refl

-- Of a longer word only `width` bytes are read.
pub scan_word-long :
    (width : ℕ) (u v : Text)
    → 0 < length u
    → NoSpace u
    → length u ≡ width
    → scan_word width (u ++ v) ≡ some (u, v)
unfolding scan_word
scan_word-long width [] v ne n h = absurd (omega arith)
scan_word-long width (x ∷ u) v ne (nx, n) h = rw nx (ap some (word-long width (x ∷ u) v (nx, n) h))

newline_first : (c : ℕ) → (10 == c) ≡ false → (c == 10) ≡ false
newline_first c h = ground arith

line-append :
    (n : ℕ) (l rest : Text)
    → HasNo 10 l
    → length l < n
    → line n (l ++ 10 ∷ rest) ≡ (l ++ 10 ∷ [], rest)
unfolding line
line-append zero l rest h lt = absurd (omega arith)
line-append (suc n) [] rest h lt = refl
line-append (suc n) (c ∷ l) rest (hc, h) lt =
    rw (newline_first c hc, line-append n l rest h (omega arith)) refl

-- A line that fits into the buffer.
pub fgets-append :
    (size : ℕ) (l rest : Text)
    → HasNo 10 l
    → length l + 1 < size
    → fgets size (l ++ 10 ∷ rest) ≡ some (l ++ 10 ∷ [], rest)
unfolding fgets
fgets-append size [] rest h lt = ap some (line-append (size - 1) [] rest h (omega arith))
fgets-append size (c ∷ l) rest h lt = ap some (line-append (size - 1) (c ∷ l) rest h (omega arith))
