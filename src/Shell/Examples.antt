-- ===== src/Shell/Examples.antt =====
-- 10_processes/p3.c: tests, and the theorems at concrete inputs.
use eltex_homeworks.Prelude.{◌≡◌, refl, [], ◌∷◌, ◌++◌, arith, replicate}
use eltex_homeworks.Libc.Text.{codes, str_eq, cut_at}
use eltex_homeworks.Libc.Input.{fgets}
use eltex_homeworks.Shell.Round.{ended, run_line, refill, round, rounds}
use eltex_homeworks.Shell.Rounds.{sentence, rounds-sentence}

ends : round [] (codes "exit\nls\n") ≡ ended
unfolding round refill fgets run_line cut_at str_eq
ends = refl

rounds-sentence_example :
    rounds 4 [] (sentence (codes "rm") (codes "-i" ∷ []) ++ 10 ∷ [])
    ≡ (codes "rm" ∷ codes "-i" ∷ []) ∷ replicate 3 (codes "rm" ∷ [])
rounds-sentence_example =
    rounds-sentence 3 [] (codes "rm") (codes "-i" ∷ [])
      (omega arith, (refl, (refl, tt)), (refl, (refl, tt)))
      ((omega arith, (refl, (refl, tt)), (refl, (refl, tt))), tt) (omega arith) (omega arith)
      (unfold str_eq in refl) (unfold str_eq in refl)
