-- ===== src/Libc/Tokens.antt =====
-- strtok_r with a single delimiter.
use eltex_homeworks.Prelude.{
  ℕ, ◌<◌, ◌≡◌, refl, ap₂, Option, none, some, [], ◌∷◌, ◌++◌, arith, ◌==◌, if◌then◌else◌, length,
}
use eltex_homeworks.Libc.Text.{Text, cut_at, HasNo, cut_at-HasNo, cut_at-append}

unfoldable pub skip_delims : ℕ → Text → Text
skip_delims c [] = []
skip_delims c (x ∷ s) = if c == x then skip_delims c s else x ∷ s

-- Behind the first delimiter.
unfoldable pub behind : ℕ → Text → Text
behind c [] = []
behind c (x ∷ s) = if c == x then s else behind c s

unfoldable pub take_token : ℕ → Text → Option (Text × Text)
take_token c [] = none
take_token c (x ∷ s) = some (cut_at c (x ∷ s), behind c (x ∷ s))

-- The token with the text that *saveptr then points to; `none` for NULL.
unfoldable pub strtok_r : ℕ → Text → Option (Text × Text)
strtok_r c s = take_token c (skip_delims c s)

behind-append : (c : ℕ) (s rest : Text) → HasNo c s → behind c (s ++ c ∷ rest) ≡ rest
unfolding behind
behind-append c [] rest h = ground arith
behind-append c (x ∷ s) rest h = rw h.0 (behind-append c s rest h.1)

behind-HasNo : (c : ℕ) (s : Text) → HasNo c s → behind c s ≡ []
unfolding behind
behind-HasNo c [] h = refl
behind-HasNo c (x ∷ s) h = rw h.0 (behind-HasNo c s h.1)

-- A token with a delimiter behind it, and the last one.
pub strtok_r-append :
    (c : ℕ) (s rest : Text) → 0 < length s → HasNo c s → strtok_r c (s ++ c ∷ rest) ≡ some (s, rest)
unfolding strtok_r skip_delims take_token
strtok_r-append c [] rest ne h = absurd (omega arith)
strtok_r-append c (x ∷ s) rest ne h =
    rw h.0
      (ap₂ (λ a b. some (a, b)) (cut_at-append c (x ∷ s) rest h) (behind-append c (x ∷ s) rest h))

pub strtok_r-last : (c : ℕ) (s : Text) → 0 < length s → HasNo c s → strtok_r c s ≡ some (s, [])
unfolding strtok_r skip_delims take_token
strtok_r-last c [] ne h = absurd (omega arith)
strtok_r-last c (x ∷ s) ne h =
    rw h.0 (ap₂ (λ a b. some (a, b)) (cut_at-HasNo c (x ∷ s) h) (behind-HasNo c (x ∷ s) h))
