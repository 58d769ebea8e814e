-- ===== src/Shell/Round.antt =====
-- 10_processes/p3.c: one round of the loop of main. The buffer `command` is the text up to its NUL; fork,
-- execvp and waitpid are the command that the round runs.
use eltex_homeworks.Prelude.{ℕ, zero, suc, Option, none, some, List, [], ◌∷◌, ◌==◌, if◌then◌else◌}
use eltex_homeworks.Libc.Text.{Text, codes, str_eq, cut_at}
use eltex_homeworks.Libc.Input.{fgets}
use eltex_homeworks.Libc.Tokens.{strtok_r}

abbrev pub max_args : ℕ
max_args = 32

-- The loop of strtok, which ends after `n` tokens.
unfoldable pub arguments : ℕ → Text → List Text
arguments zero s = []
arguments (suc n) s = elim (strtok_r 32 s) [ none ↦ [] | some (t, rest) ↦ t ∷ arguments n rest ]

-- What is left in the buffer: strtok writes a NUL behind the first token.
unfoldable pub chopped : Text → Text
chopped [] = []
chopped (c ∷ s) = if 32 == c then 32 ∷ chopped s else cut_at 32 (c ∷ s)

-- fgets leaves the buffer as it is at the end of the input.
unfoldable pub refill : Text → Option (Text × Text) → Text × Text
refill command none = (command, [])
refill command (some (l, rest)) = (l, rest)

pub data Turn : Type 0 where
  ended : Turn
  -- The arguments of execvp, the buffer and the input afterwards.
  runs : List Text → Text → Text → Turn

unfoldable pub run_line : Text → Text → Turn
run_line command rest =
    if str_eq command (codes "exit")
    then ended
    else runs (arguments max_args command) (chopped command) rest

unfoldable pub round : Text → Text → Turn
round command input =
    let (l, rest) = refill command (fgets 1024 input) in run_line (cut_at 10 l) rest

-- The commands that the next `n` rounds run.
unfoldable pub rounds : ℕ → Text → Text → List (List Text)
rounds zero command input = []
rounds (suc n) command input = elim (round command input) [
  | ended ↦ []
  | runs args command' rest ↦ args ∷ rounds n command' rest
]
