-- ===== src/Counter/Examples.antt =====
-- 11_threads/p3.c: the theorems at concrete states.
use eltex_homeworks.Prelude.{suc, zero, ◌+◌, ◌*◌, ◌≡◌, refl, ◌⊎◌, true, [], ◌∷◌, replicate}
use eltex_homeworks.Counter.Threads.{
  num_threads, increment_per_thread, waiting, locked, Counting, boot, Step, lock, Reach, started,
}
use eltex_homeworks.Counter.Mutex.{AllEnded, Reach-counter}
use eltex_homeworks.Counter.Ending.{left, Run, here, on, Reach-ends}
use eltex_homeworks.Counter.Rounds.{unlocked, all_rounds}

abbrev at_end : Counting
at_end = unlocked (replicate 5 (waiting 0)) 500000

-- One thread after the other.
at_end-Reach : Reach at_end
unfolding boot
at_end-Reach =
    all_rounds 100000 (waiting 0 ∷ waiting 0 ∷ waiting 0 ∷ waiting 0 ∷ waiting 100000 ∷ []) 4 400000
      refl
      (all_rounds 100000 (waiting 0 ∷ waiting 0 ∷ waiting 0 ∷ waiting 100000 ∷ waiting 100000 ∷ [])
        3 300000 refl
        (all_rounds 100000
          (waiting 0 ∷ waiting 0 ∷ waiting 100000 ∷ waiting 100000 ∷ waiting 100000 ∷ []) 2 200000
          refl
          (all_rounds 100000
            (waiting 0 ∷ waiting 100000 ∷ waiting 100000 ∷ waiting 100000 ∷ waiting 100000 ∷ []) 1
            100000 refl (all_rounds 100000 (replicate 5 (waiting 100000)) 0 0 refl started))))

at_end-AllEnded : AllEnded at_end
at_end-AllEnded zero p h = cc
at_end-AllEnded (suc zero) p h = cc
at_end-AllEnded (suc (suc zero)) p h = cc
at_end-AllEnded (suc (suc (suc zero))) p h = cc
at_end-AllEnded (suc (suc (suc (suc zero)))) p h = cc
at_end-AllEnded (suc (suc (suc (suc (suc i))))) p h = cc

Reach-counter_example : at_end.shared_counter ≡ num_threads * increment_per_thread
Reach-counter_example = Reach-counter at_end at_end-Reach at_end-AllEnded

abbrev first_locked : Counting
first_locked = record {
  threads = locked 99999 ∷ replicate 4 (waiting 100000);
  mutex = true;
  shared_counter = 0;
}

one_step : Run 1 boot first_locked
unfolding boot
one_step = on here (lock 0 99999 refl refl)

Reach-ends_example :
    (1 + left first_locked ≡ left boot)
    × (AllEnded first_locked ⊎ ((u : Counting) × Step first_locked u))
Reach-ends_example = Reach-ends boot first_locked 1 started one_step
