-- ===== src/Substring/Search.antt =====
-- 03_pointers/p4.c. A pointer into a string is the text from it on.
use eltex_homeworks.Prelude.{ℕ, Option, none, some, [], ◌∷◌, ◌++◌, ◌==◌, if◌then◌else◌}
use eltex_homeworks.Libc.Text.{Text, codes, cut_at, snprintf}

-- The inner loop: what `p` points to after it.
unfoldable pub walk : Text → Text → Text
walk [] p = p
walk (c ∷ s) [] = []
walk (c ∷ s) (d ∷ p) = let rest = walk s p in if c == d then rest else d ∷ p

-- `next` is the result of the later rounds.
unfoldable pub here_or : Text → Text → Option Text → Option Text
here_or [] str next = some str
here_or (d ∷ p) str next = next

-- The outer loop.
unfoldable pub search_from : Text → Text → Option Text
search_from [] substr = none
search_from (c ∷ str) substr = here_or (walk (c ∷ str) substr) (c ∷ str) (search_from str substr)

unfoldable pub find_substring : Text → Text → Option Text
find_substring str [] = some str
find_substring str (d ∷ substr) = search_from str (d ∷ substr)

abbrev pub max_len : ℕ
max_len = 256

-- main on the two lines that are typed: the line that it prints.
unfoldable pub report : Text → Text → Text
report str substr =
    elim (find_substring (cut_at 10 (snprintf max_len str)) (cut_at 10 (snprintf max_len substr))) [
      | none ↦ codes "not found" ++ 10 ∷ []
      | some result ↦ codes "found: " ++ result ++ 10 ∷ []
    ]
