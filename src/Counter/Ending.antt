-- ===== src/Counter/Ending.antt =====
-- 11_threads/p3.c: the threads come to their ends.
use eltex_homeworks.Prelude.{
  ℕ, zero, suc, ◌+◌, ◌*◌, ◌<◌, ◌≡◌, refl, ◌⊎◌, inl, inr, Bool, true, false, some, List, [], ◌∷◌,
  get_elem?, arith,
}
use eltex_homeworks.Counter.Threads.{
  Phase, waiting, locked, loaded, stored, Counting, Step, lock, load, store, unlock, Reach, next,
}
use eltex_homeworks.Counter.Sums.{sum_of, sum_of-set}
use eltex_homeworks.Counter.Mutex.{inside, Counts, Reach-Counts, AllEnded}

-- The steps that a thread has to go.
unfoldable pub way : Phase → ℕ
way (waiting k) = 4 * k
way (locked k) = 4 * k + 3
way (loaded k v) = 4 * k + 2
way (stored k) = 4 * k + 1

abbrev pub left : Counting → ℕ
left s = sum_of way s.threads

pub data Run : ℕ → Counting → Counting → Type 0 where
  here : {s : Counting} → Run 0 s s
  on : {n : ℕ} {s t u : Counting} → Run n s t → Step t u → Run (suc n) s u

Step-left : (s t : Counting) → Step s t → suc (left t) ≡ left s
unfolding way
Step-left s _ (lock i k h free) =
    omega (arith, sum_of-set way s.threads i (waiting (suc k)) (locked k) h)
Step-left s _ (load i k h) =
    omega (arith, sum_of-set way s.threads i (locked k) (loaded k s.shared_counter) h)
Step-left s _ (store i k v h) = omega (arith, sum_of-set way s.threads i (loaded k v) (stored k) h)
Step-left s _ (unlock i k h) = omega (arith, sum_of-set way s.threads i (stored k) (waiting k) h)

Run-left : (n : ℕ) (s t : Counting) → Run n s t → n + left t ≡ left s
Run-left _ s _ here = omega arith
Run-left _ s _ (on {n} {t = t} {u = u} run step) =
    omega (arith, Run-left n s t run, Step-left t u step)

Run-Reach : (n : ℕ) (s t : Counting) → Reach s → Run n s t → Reach t
Run-Reach _ s _ reached here = reached
Run-Reach _ s _ reached (on {n} {t = t} run step) = next (Run-Reach n s t reached run) step

-- A thread that is inside.
find_inside :
    (ps : List Phase)
    → 0 < sum_of inside ps
    → (i : ℕ) × (p : Phase) × (get_elem? ps i ≡ some p) × (inside p ≡ 1)
unfolding sum_of inside
find_inside [] h = absurd (omega arith)
find_inside (waiting k ∷ ps) h =
    let (i, p, at, is) = find_inside ps (omega arith) in (suc i, p, at, is)
find_inside (locked k ∷ ps) h = (0, locked k, refl, refl)
find_inside (loaded k v ∷ ps) h = (0, loaded k v, refl, refl)
find_inside (stored k ∷ ps) h = (0, stored k, refl, refl)

-- With nobody inside, all have ended or one can take the lock.
ended_or_waiting :
    (ps : List Phase)
    → sum_of inside ps ≡ 0
    → ((i : ℕ) (p : Phase) → get_elem? ps i ≡ some p → p ≡ waiting 0)
      ⊎ ((i : ℕ) × (k : ℕ) × (get_elem? ps i ≡ some (waiting (suc k))))
unfolding sum_of inside
ended_or_waiting [] h = inl (λ i p e. absurd cc)
ended_or_waiting (waiting zero ∷ ps) h = elim (ended_or_waiting ps (omega arith)) [
  | inl ended ↦ inl (all_ended ps ended)
  | inr (i, k, at) ↦ inr (suc i, k, at)
]
  where
    all_ended :
        (ps : List Phase)
        → ((i : ℕ) (p : Phase) → get_elem? ps i ≡ some p → p ≡ waiting 0)
        → (i : ℕ) (p : Phase) → get_elem? (waiting zero ∷ ps) i ≡ some p
        → p ≡ waiting 0
    all_ended ps ended zero p e = cc
    all_ended ps ended (suc i) p e = ended i p e
ended_or_waiting (waiting (suc k) ∷ ps) h = inr (0, k, refl)
ended_or_waiting (locked k ∷ ps) h = absurd (omega arith)
ended_or_waiting (loaded k v ∷ ps) h = absurd (omega arith)
ended_or_waiting (stored k ∷ ps) h = absurd (omega arith)

inside_moves :
    (s : Counting) (i : ℕ) (p : Phase)
    → get_elem? s.threads i ≡ some p
    → inside p ≡ 1
    → (t : Counting) × Step s t
unfolding inside
inside_moves s i (waiting k) at is = absurd (omega arith)
inside_moves s i (locked k) at is = (_, load i k at)
inside_moves s i (loaded k v) at is = (_, store i k v at)
inside_moves s i (stored k) at is = (_, unlock i k at)

progress : (s : Counting) → Counts s → AllEnded s ⊎ ((t : Counting) × Step s t)
progress s c = by_mutex s.mutex refl
  where
    by_mutex : (b : Bool) → s.mutex ≡ b → AllEnded s ⊎ ((t : Counting) × Step s t)
    by_mutex true e =
        let one = rw e at c.one_inside in
        let (i, p, at, is) = find_inside s.threads (omega arith) in inr (inside_moves s i p at is)
    by_mutex false e = elim (ended_or_waiting s.threads (rw e at c.one_inside)) [
      | inl ended ↦ inl ended
      | inr (i, k, at) ↦ inr (_, lock i k at e)
    ]

-- From a state that the threads reach, each step takes one off the steps that are left (four for each
-- increment), in whatever order they are taken; and until all threads have ended one of them can take a
-- step: there is no deadlock.
pub Reach-ends :
    (s t : Counting) (n : ℕ)
    → Reach s
    → Run n s t
    → (n + left t ≡ left s) × (AllEnded t ⊎ ((u : Counting) × Step t u))
Reach-ends s t n reached run =
    (Run-left n s t run, progress t (Reach-Counts t (Run-Reach n s t reached run)))
