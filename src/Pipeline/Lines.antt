-- ===== src/Pipeline/Lines.antt =====
-- 12_channels/p3.c: a line is read as the commands of which it is made.
use eltex_homeworks.Prelude.{
  ℕ, zero, suc, ◌≤◌, ◌<◌, ◌≡◌, refl, ap, ap₂, ◌∙◌, false, some, List, [], ◌∷◌, ◌++◌, map, arith,
  length, length-map, length-append, take_all,
}
use eltex_homeworks.Libc.Text.{Text, HasNo, HasNo-append, codes, str_eq}
use eltex_homeworks.Pipeline.CommandLine.{
  max_line, max_args, max_commands, tokens, arguments, parse_line,
}
use eltex_homeworks.Pipeline.Words.{join, AreWords, tokens-join}
use eltex_homeworks.Pipeline.Spaces.{spaces, trim-join}

-- A command as it is typed: a word and more words, with spaces in front of them and behind.
pub record Written : Type 0 where
  pub before : ℕ
  pub program : Text
  pub more : List Text
  pub after : ℕ

abbrev pub words : Written → List Text
words c = c.program ∷ c.more

abbrev pub text_of : Written → Text
text_of c = spaces c.before ++ (join 32 (words c) ++ spaces c.after)

-- Commands that the shell can run: at most 32 words, without spaces and bars.
abbrev pub AreCommands : List Written → Type 0
AreCommands [] = Unit {0}
AreCommands (c ∷ cs) =
    (AreWords 32 (words c) × AreWords 124 (words c) × (length (words c) ≤ max_args))
    × AreCommands cs

HasNo-spaces : (n : ℕ) → HasNo 124 (spaces n)
HasNo-spaces zero = tt
HasNo-spaces (suc n) = (refl, HasNo-spaces n)

HasNo-join : (ws : List Text) → AreWords 124 ws → HasNo 124 (join 32 ws)
HasNo-join [] h = tt
HasNo-join (w ∷ []) h = h.0.1
HasNo-join (w ∷ v ∷ ws) h =
    HasNo-append 124 w (32 ∷ join 32 (v ∷ ws)) h.0.1 (refl, HasNo-join (v ∷ ws) h.1)

length-join : (w : Text) (ws : List Text) → length w ≤ length (join 32 (w ∷ ws))
length-join w [] = omega arith
length-join w (v ∷ ws) = omega (arith, length-append w (32 ∷ join 32 (v ∷ ws)))

text_of-word :
    (c : Written) → AreWords 124 (words c) → (0 < length (text_of c)) × HasNo 124 (text_of c)
text_of-word c h = (
  omega (
    arith,
    length-append (spaces c.before) (join 32 (words c) ++ spaces c.after),
    length-append (join 32 (words c)) (spaces c.after),
    length-join c.program c.more,
    h.0.0,
  ),
  HasNo-append 124 (spaces c.before) (join 32 (words c) ++ spaces c.after) (HasNo-spaces c.before) (
      HasNo-append 124 (join 32 (words c)) (spaces c.after) (HasNo-join (words c) h)
        (HasNo-spaces c.after)),
)

texts-AreWords : (cs : List Written) → AreCommands cs → AreWords 124 (map text_of cs)
texts-AreWords [] h = tt
texts-AreWords (c ∷ cs) ((_, plain, _), h) = (text_of-word c plain, texts-AreWords cs h)

arguments-text_of :
    (c : Written)
    → AreWords 32 (words c)
    → length (words c) ≤ max_args
    → arguments (text_of c) ≡ words c
unfolding arguments
arguments-text_of c h few =
    ap (tokens 32 max_args) (trim-join c.before c.after c.program c.more h)
    ∙ tokens-join 32 max_args (words c) h few

all_arguments : (cs : List Written) → AreCommands cs → map arguments (map text_of cs) ≡ map words cs
all_arguments [] h = refl
all_arguments (c ∷ cs) ((ws, _, few), h) =
    ap₂ (◌∷◌) (arguments-text_of c ws few) (all_arguments cs h)

-- At most ten commands with bars between them, each of 1 to 32 words (not empty, without spaces and bars)
-- with a space between them and any number of spaces in front and behind, in a line of at most 1023 bytes
-- that is not "exit": the shell reads exactly these commands with these arguments.
pub parse_line-join :
    (cs : List Written)
    → AreCommands cs
    → length cs ≤ max_commands
    → length (join 124 (map text_of cs)) ≤ max_line
    → str_eq (join 124 (map text_of cs)) (codes "exit") ≡ false
    → parse_line (join 124 (map text_of cs)) ≡ some (map words cs)
unfolding parse_line
parse_line-join cs h few short other =
    rw (take_all max_line (join 124 (map text_of cs)) short, parse_line)
      (rw other (
        ap some (
          ap (map arguments) (
            tokens-join 124 max_commands (map text_of cs) (texts-AreWords cs h)
              (omega (arith, length-map cs text_of)))
          ∙ all_arguments cs h)))
