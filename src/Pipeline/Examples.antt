-- ===== src/Pipeline/Examples.antt =====
-- 12_channels/p3.c: tests, and the theorem at a concrete input.
use eltex_homeworks.Prelude.{◌≡◌, refl, some, List, [], ◌∷◌, map, arith}
use eltex_homeworks.Libc.Text.{codes, str_eq, cut_at}
use eltex_homeworks.Libc.Tokens.{strtok_r, skip_delims, take_token, behind}
use eltex_homeworks.Pipeline.CommandLine.{tokens, trim, trim_end, arguments, parse_line, connect}
use eltex_homeworks.Pipeline.Words.{join}
use eltex_homeworks.Pipeline.Lines.{Written, text_of, AreCommands, parse_line-join}

two_commands :
    parse_line (codes "ls -l | wc") ≡ some ((codes "ls" ∷ codes "-l" ∷ []) ∷ (codes "wc" ∷ []) ∷ [])
unfolding parse_line arguments trim trim_end tokens strtok_r skip_delims take_token behind cut_at
    str_eq
two_commands = refl

three_connected :
    connect 0 (record { read = 3; write = 4 } ∷ record { read = 5; write = 6 } ∷ [])
    ≡ (0, 4) ∷ (3, 6) ∷ (5, 1) ∷ []
unfolding connect
three_connected = refl

-- "ls -l | wc"
abbrev listing : List Written
listing =
    record { before = 0; program = codes "ls"; more = codes "-l" ∷ []; after = 1 }
    ∷ record { before = 1; program = codes "wc"; more = []; after = 0 }
    ∷ []

listing-AreCommands : AreCommands listing
listing-AreCommands = (
  (
    ((omega arith, (refl, (refl, tt))), ((omega arith, (refl, (refl, tt))), tt)),
    ((omega arith, (refl, (refl, tt))), ((omega arith, (refl, (refl, tt))), tt)),
    omega arith,
  ),
  (
    (((omega arith, (refl, (refl, tt))), tt), ((omega arith, (refl, (refl, tt))), tt), omega arith),
    tt,
  ),
)

parse_line-join_example :
    parse_line (join 124 (map text_of listing))
    ≡ some ((codes "ls" ∷ codes "-l" ∷ []) ∷ (codes "wc" ∷ []) ∷ [])
unfolding str_eq
parse_line-join_example =
    parse_line-join listing listing-AreCommands (omega arith) (omega arith) refl
