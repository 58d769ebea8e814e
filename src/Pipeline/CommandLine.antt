-- ===== src/Pipeline/CommandLine.antt =====
-- 12_channels/p3.c: the commands and arguments of a line, and the descriptors of each command. A line is
-- given without its newline.
use eltex_homeworks.Prelude.{
  ℕ, zero, suc, Option, none, some, List, [], ◌∷◌, map, ◌==◌, if◌then◌else◌, take,
}
use eltex_homeworks.Libc.Text.{Text, codes, str_eq}
use eltex_homeworks.Libc.Tokens.{skip_delims, strtok_r}

abbrev pub max_args : ℕ
max_args = 32

abbrev pub max_commands : ℕ
max_commands = 10

-- The loops of strtok_r, which end after `n` tokens.
unfoldable pub tokens : ℕ → ℕ → Text → List Text
tokens c zero s = []
tokens c (suc n) s = elim (strtok_r c s) [ none ↦ [] | some (t, rest) ↦ t ∷ tokens c n rest ]

-- The loop that cuts off the spaces at the end.
unfoldable pub trim_end : Text → Text
trim_end [] = []
trim_end (c ∷ s) = cons_trimmed c (trim_end s)
  where
    cons_trimmed : ℕ → Text → Text
    cons_trimmed c [] = if c == 32 then [] else c ∷ []
    cons_trimmed c (d ∷ s) = c ∷ d ∷ s

unfoldable pub trim : Text → Text
trim s = trim_end (skip_delims 32 s)

unfoldable pub arguments : Text → List Text
arguments cmd = tokens 32 max_args (trim cmd)

-- fgets takes at most 1023 bytes of a line.
abbrev pub max_line : ℕ
max_line = 1023

-- The commands, each with its arguments; `none` for the line that ends the shell.
unfoldable pub parse_line : Text → Option (List (List Text))
parse_line line =
    let command = take max_line line in
    if str_eq command (codes "exit")
    then none
    else some (map arguments (tokens 124 max_commands command))

pub record Pipe : Type 0 where
  pub read : ℕ
  pub write : ℕ

-- The input and output of each command, from the command that reads `input` on; `pipes` are those that
-- pipe gives for the commands but the last.
unfoldable pub connect : ℕ → List Pipe → List (ℕ × ℕ)
connect input [] = (input, 1) ∷ []
connect input (p ∷ pipes) = (input, p.write) ∷ connect p.read pipes
