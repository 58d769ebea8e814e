-- ===== src/ThreadPool/Examples.antt =====
-- 16_sockets/part2/pthread_pool_server: the theorems at concrete runs.
use eltex_homeworks.Prelude.{ℕ, ◌≤◌, ◌≡◌, refl, subst, true, [], ◌∷◌, arith, length}
use eltex_homeworks.Prelude.Int.{ℤ, pos}
use eltex_homeworks.ThreadPool.Server.{
  max_threads, is_live, serving, Pool, boot, scanning, accept, create, mark, Reach, here, next_step,
}
use eltex_homeworks.ThreadPool.Limit.{occurs, Reach-limit}
use eltex_homeworks.ThreadPool.Stuck.{Reach-stuck}
use eltex_homeworks.ThreadPool.Losing.{all_lost}

one_served : (s : Pool) × Reach boot s × (is_live (s.phase 1) ≡ true)
unfolding boot
one_served = (
  _,
  next_step (next_step (next_step here (accept (pos 4) refl)) (create (pos 4) 0 refl refl))
      (mark 0 refl),
  refl,
)

only_one : (t : ℕ) → occurs t (1 ∷ []) ≡ true → 1 ≡ t
only_one t h = ground arith

Reach-limit_example : length {A = ℕ} (1 ∷ []) ≤ max_threads
Reach-limit_example =
    Reach-limit (1 ∷ []) one_served.1 (refl, tt)
      (λ t h. subst (λ t. is_live (one_served.0.phase t) ≡ true) (only_one t h) one_served.2)

-- A client that comes when all slots are lost.
abbrev late : Pool
late = record all_lost.pool { main = scanning (pos 9) 0 }

Reach-stuck_example :
    (late.next ≡ all_lost.pool.next)
    × ((t : ℕ) (fd : ℤ) → late.phase t ≡ serving fd → all_lost.pool.phase t ≡ serving fd)
Reach-stuck_example =
    Reach-stuck all_lost.from_boot all_lost.lost
      (next_step here (accept (pos 9) all_lost.main_accepts))
