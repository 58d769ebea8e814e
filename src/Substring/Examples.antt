-- ===== src/Substring/Examples.antt =====
-- 03_pointers/p4.c: tests, and the theorem at a concrete input.
use eltex_homeworks.Prelude.{◌≡◌, refl, none, some}
use eltex_homeworks.Libc.Text.{codes, cut_at}
use eltex_homeworks.Substring.Search.{walk, here_or, search_from, find_substring, report}
use eltex_homeworks.Substring.First.{IsFirst, find_substring-IsFirst}

second_a : find_substring (codes "banana") (codes "nan") ≡ some (codes "nana")
unfolding find_substring search_from here_or walk
second_a = refl

absent : find_substring (codes "banana") (codes "nab") ≡ none
unfolding find_substring search_from here_or walk
absent = refl

printed : report (codes "banana\n") (codes "an\n") ≡ codes "found: anana\n"
unfolding report find_substring search_from here_or walk cut_at
printed = refl

find_substring-IsFirst_example :
    IsFirst (codes "nan") (codes "banana") (find_substring (codes "banana") (codes "nan"))
find_substring-IsFirst_example = find_substring-IsFirst (codes "banana") (codes "nan")
