-- ===== src/Shell/Rounds.antt =====
-- 10_processes/p3.c: what is run for a line, and at the end of the input.
use eltex_homeworks.Prelude.{
  ℕ, zero, suc, ◌<◌, ◌≡◌, refl, ap, ap₂, false, List, [], ◌∷◌, ◌++◌, arith, length, replicate,
}
use eltex_homeworks.Libc.Text.{
  Text, codes, str_eq, HasNo, HasNo-append, cut_at-HasNo, cut_at-append,
}
use eltex_homeworks.Libc.Input.{fgets, fgets-append}
use eltex_homeworks.Libc.Tokens.{strtok_r, skip_delims, take_token, strtok_r-append, strtok_r-last}
use eltex_homeworks.Shell.Round.{arguments, chopped, refill, runs, run_line, round, rounds}

-- Words, each with a space in front of the next one.
abbrev pub sentence : Text → List Text → Text
sentence w [] = w
sentence w (v ∷ ws) = w ++ 32 ∷ sentence v ws

-- A word has at least one byte, and no space or newline.
abbrev pub IsWord : Text → Type 0
IsWord w = (0 < length w) × HasNo 32 w × HasNo 10 w

abbrev pub AreWords : List Text → Type 0
AreWords [] = Unit {0}
AreWords (w ∷ ws) = IsWord w × AreWords ws

arguments-none : (n : ℕ) → arguments n [] ≡ []
unfolding arguments strtok_r skip_delims take_token
arguments-none zero = refl
arguments-none (suc n) = refl

arguments-sentence :
    (n : ℕ) (w : Text) (ws : List Text)
    → IsWord w
    → AreWords ws
    → length ws < n
    → arguments n (sentence w ws) ≡ w ∷ ws
unfolding arguments
arguments-sentence zero w ws h hs lt = absurd (omega arith)
arguments-sentence (suc n) w [] (ne, plain, _) hs lt =
    rw (strtok_r-last 32 w ne plain, arguments) (ap (◌∷◌ w) (arguments-none n))
arguments-sentence (suc n) w (v ∷ ws) (ne, plain, _) (hv, hs) lt =
    rw (strtok_r-append 32 w (sentence v ws) ne plain, arguments)
      (ap (◌∷◌ w) (arguments-sentence n v ws hv hs (omega arith)))

chopped-sentence : (w : Text) (ws : List Text) → IsWord w → chopped (sentence w ws) ≡ w
unfolding chopped
chopped-sentence [] ws (ne, _, _) = absurd (omega arith)
chopped-sentence (x ∷ w) [] (ne, (nx, n), _) = rw nx (cut_at-HasNo 32 (x ∷ w) (nx, n))
chopped-sentence (x ∷ w) (v ∷ ws) (ne, (nx, n), _) =
    rw nx (cut_at-append 32 (x ∷ w) (sentence v ws) (nx, n))

sentence-HasNo : (w : Text) (ws : List Text) → IsWord w → AreWords ws → HasNo 10 (sentence w ws)
sentence-HasNo w [] (_, _, n) hs = n
sentence-HasNo w (v ∷ ws) (_, _, n) (hv, hs) =
    HasNo-append 10 w (32 ∷ sentence v ws) n (refl, sentence-HasNo v ws hv hs)

-- A line of 1 to 32 words that fits into the buffer and is not "exit": the round runs exactly these words,
-- and only the first one is left in the buffer.
round-sentence :
    (command rest w : Text) (ws : List Text)
    → IsWord w
    → AreWords ws
    → length ws < 32
    → length (sentence w ws) < 1023
    → str_eq (sentence w ws) (codes "exit") ≡ false
    → round command (sentence w ws ++ 10 ∷ rest) ≡ runs (w ∷ ws) w rest
unfolding round refill run_line
round-sentence command rest w ws h hs few short ne =
    let plain = sentence-HasNo w ws h hs in
    rw (fgets-append 1024 (sentence w ws) rest plain (omega arith), round)
      (rw (cut_at-append 10 (sentence w ws) [] plain, ne)
        (ap₂ (λ a b. runs a b rest) (arguments-sentence 32 w ws h hs few)
          (chopped-sentence w ws h)))

-- At the end of the input the round runs what is in the buffer.
round-end :
    (w : Text) → IsWord w → str_eq w (codes "exit") ≡ false → round w [] ≡ runs (w ∷ []) w []
unfolding round refill run_line fgets
round-end w (ne, plain, line) h =
    rw (cut_at-HasNo 10 w line, h)
      (ap₂ (λ a b. runs a b []) (arguments-sentence 32 w [] (ne, plain, line) tt (omega arith))
        (chopped-sentence w [] (ne, plain, line)))

rounds-end :
    (n : ℕ) (w : Text)
    → IsWord w
    → str_eq w (codes "exit") ≡ false
    → rounds n w [] ≡ replicate n (w ∷ [])
unfolding rounds
rounds-end zero w h ne = refl
rounds-end (suc n) w h ne = rw (round-end w h ne, rounds) (ap (◌∷◌ (w ∷ [])) (rounds-end n w h ne))

-- A last line of at most 32 words with a space between them, less than 1023 bytes long, the first word
-- not "exit": the shell runs it and then does not end at the end of the input, but runs its first word,
-- without the others, in every round from then on.
pub rounds-sentence :
    (n : ℕ) (command w : Text) (ws : List Text)
    → IsWord w
    → AreWords ws
    → length ws < 32
    → length (sentence w ws) < 1023
    → str_eq w (codes "exit") ≡ false
    → str_eq (sentence w ws) (codes "exit") ≡ false
    → rounds (suc n) command (sentence w ws ++ 10 ∷ []) ≡ (w ∷ ws) ∷ replicate n (w ∷ [])
unfolding rounds
rounds-sentence n command w ws h hs few short ne ne' =
    rw (round-sentence command [] w ws h hs few short ne', rounds)
      (ap (◌∷◌ (w ∷ ws)) (rounds-end n w h ne))
