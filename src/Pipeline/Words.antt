-- ===== src/Pipeline/Words.antt =====
-- 12_channels/p3.c: the tokens of a line are the words of which it is made.
use eltex_homeworks.Prelude.{
  ℕ, zero, suc, ◌≤◌, ◌<◌, ◌≡◌, refl, ap, List, [], ◌∷◌, ◌++◌, arith, length,
}
use eltex_homeworks.Libc.Text.{Text, HasNo}
use eltex_homeworks.Libc.Tokens.{strtok_r, skip_delims, take_token, strtok_r-append, strtok_r-last}
use eltex_homeworks.Pipeline.CommandLine.{tokens}

abbrev pub join : ℕ → List Text → Text
join c [] = []
join c (w ∷ []) = w
join c (w ∷ v ∷ ws) = w ++ c ∷ join c (v ∷ ws)

-- Words that are not empty and do not have the separator.
abbrev pub AreWords : ℕ → List Text → Type 0
AreWords c [] = Unit {0}
AreWords c (w ∷ ws) = ((0 < length w) × HasNo c w) × AreWords c ws

tokens-none : (c n : ℕ) → tokens c n [] ≡ []
unfolding tokens strtok_r skip_delims take_token
tokens-none c zero = refl
tokens-none c (suc n) = refl

pub tokens-join :
    (c n : ℕ) (ws : List Text) → AreWords c ws → length ws ≤ n → tokens c n (join c ws) ≡ ws
unfolding tokens
tokens-join c n [] h le = tokens-none c n
tokens-join c zero (w ∷ ws) h le = absurd (omega arith)
tokens-join c (suc n) (w ∷ []) ((ne, plain), h) le =
    rw (strtok_r-last c w ne plain, tokens) (ap (◌∷◌ w) (tokens-none c n))
tokens-join c (suc n) (w ∷ v ∷ ws) ((ne, plain), h) le =
    rw (strtok_r-append c w (join c (v ∷ ws)) ne plain, tokens)
      (ap (◌∷◌ w) (tokens-join c n (v ∷ ws) h (omega arith)))
