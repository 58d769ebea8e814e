-- ===== src/Counter/Mutex.antt =====
-- 11_threads/p3.c: what holds in every state of the threads.
use eltex_homeworks.Prelude.{
  ℕ, zero, suc, ◌+◌, ◌*◌, ◌≤◌, ◌≡◌, refl, ap, Bool, true, false, some, List, [], ◌∷◌, get_elem?,
  set, if◌then◌else◌, arith,
}
use eltex_homeworks.Counter.Threads.{
  num_threads, increment_per_thread, Phase, waiting, locked, loaded, stored, Counting, boot, Step,
  lock, load, store, unlock, Reach, started, next,
}
use eltex_homeworks.Counter.Sums.{sum_of, sum_of-set, sum_of-elem}

-- Between lock and unlock.
unfoldable pub inside : Phase → ℕ
inside (waiting k) = 0
inside (locked k) = 1
inside (loaded k v) = 1
inside (stored k) = 1

-- The increments that are still to come.
unfoldable pub work : Phase → ℕ
work (waiting k) = k
work (locked k) = suc k
work (loaded k v) = suc k
work (stored k) = k

-- If no other thread is inside, then a thread that has loaded is the one that has just moved.
alone :
    (ps : List Phase) (i j k v : ℕ) (p q : Phase)
    → get_elem? ps i ≡ some p
    → sum_of inside ps ≡ inside p
    → get_elem? (set ps i q) j ≡ some (loaded k v)
    → q ≡ loaded k v
unfolding inside sum_of
alone [] i j k v p q h one e = cc
alone (x ∷ ps) zero zero k v p q h one e = cc
alone (x ∷ ps) zero (suc j) k v p q h one e =
    let same : x ≡ p = cc in
    let there = sum_of-elem inside ps j (loaded k v) e in absurd (omega (arith, ap inside same))
alone (x ∷ ps) (suc i) zero k v p q h one e =
    let has_loaded : x ≡ loaded k v = cc in
    let there = sum_of-elem inside ps i p h in absurd (omega (arith, ap inside has_loaded))
alone (x ∷ ps) (suc i) (suc j) k v p q h one e =
    let there = sum_of-elem inside ps i p h in alone ps i j k v p q h (omega arith) e

pub record Counts (s : Counting) : Type 0 where
  pub one_inside : sum_of inside s.threads ≡ (if s.mutex then 1 else 0)
  pub counted : s.shared_counter + sum_of work s.threads ≡ num_threads * increment_per_thread
  pub fresh : (i k v : ℕ) → get_elem? s.threads i ≡ some (loaded k v) → v ≡ s.shared_counter

boot-Counts : Counts boot
unfolding boot inside work sum_of
boot-Counts = record {
  one_inside = refl;
  counted = refl;
  fresh = λ i k v h.
      let there = sum_of-elem inside boot.threads i (loaded k v) h in absurd (omega arith);
}

-- A thread that is inside is the only one, and the mutex is locked.
held :
    (mutex : Bool) (n m : ℕ)
    → n ≡ 1
    → n ≤ m
    → m ≡ (if mutex then 1 else 0)
    → (mutex ≡ true) × (m ≡ n)
held true n m h le e = (refl, omega arith)
held false n m h le e = absurd (omega arith)

module _ (s : Counting) (c : Counts s) (i k : ℕ) where
  lock-Counts :
      get_elem? s.threads i ≡ some (waiting (suc k))
      → s.mutex ≡ false
      → Counts (record s { threads = set s.threads i (locked k); mutex = true })
  unfolding inside work
  lock-Counts h free =
      let moved_inside = sum_of-set inside s.threads i (waiting (suc k)) (locked k) h in
      let moved_work = sum_of-set work s.threads i (waiting (suc k)) (locked k) h in
      let none_inside = rw free at c.one_inside in
      record {
        one_inside = omega arith;
        counted = omega (arith, c.counted);
        fresh = λ j k' v e.
            let no = alone s.threads i j k' v (waiting (suc k)) (locked k) h none_inside e in
            absurd cc;
      }

  load-Counts :
      get_elem? s.threads i ≡ some (locked k)
      → Counts (record s { threads = set s.threads i (loaded k s.shared_counter) })
  unfolding inside work
  load-Counts h =
      let moved_inside = sum_of-set inside s.threads i (locked k) (loaded k s.shared_counter) h in
      let moved_work = sum_of-set work s.threads i (locked k) (loaded k s.shared_counter) h in
      let at_least = sum_of-elem inside s.threads i (locked k) h in
      let (_, only) = held s.mutex 1 (sum_of inside s.threads) refl at_least c.one_inside in
      record {
        one_inside = omega (arith, c.one_inside);
        counted = omega (arith, c.counted);
        fresh = λ j k' v e.
            let same = alone s.threads i j k' v (locked k) (loaded k s.shared_counter) h only e in
            cc;
      }

  store-Counts :
      (v : ℕ)
      → get_elem? s.threads i ≡ some (loaded k v)
      → Counts (record s { threads = set s.threads i (stored k); shared_counter = v + 1 })
  unfolding inside work
  store-Counts v h =
      let moved_inside = sum_of-set inside s.threads i (loaded k v) (stored k) h in
      let moved_work = sum_of-set work s.threads i (loaded k v) (stored k) h in
      let at_least = sum_of-elem inside s.threads i (loaded k v) h in
      let (_, only) = held s.mutex 1 (sum_of inside s.threads) refl at_least c.one_inside in
      record {
        one_inside = omega (arith, c.one_inside);
        counted = omega (arith, c.counted, c.fresh i k v h);
        fresh = λ j k' v' e.
            let no = alone s.threads i j k' v' (loaded k v) (stored k) h only e in absurd cc;
      }

  unlock-Counts :
      get_elem? s.threads i ≡ some (stored k)
      → Counts (record s { threads = set s.threads i (waiting k); mutex = false })
  unfolding inside work
  unlock-Counts h =
      let moved_inside = sum_of-set inside s.threads i (stored k) (waiting k) h in
      let moved_work = sum_of-set work s.threads i (stored k) (waiting k) h in
      let at_least = sum_of-elem inside s.threads i (stored k) h in
      let (_, only) = held s.mutex 1 (sum_of inside s.threads) refl at_least c.one_inside in
      record {
        one_inside = omega arith;
        counted = omega (arith, c.counted);
        fresh = λ j k' v e.
            let no = alone s.threads i j k' v (stored k) (waiting k) h only e in absurd cc;
      }

pub Reach-Counts : (s : Counting) → Reach s → Counts s
Reach-Counts _ started = boot-Counts
Reach-Counts _ (next {s} {t} reached step) = Step-Counts s t step (Reach-Counts s reached)
  where
    Step-Counts : (s t : Counting) → Step s t → Counts s → Counts t
    Step-Counts s _ (lock i k h free) c = lock-Counts s c i k h free
    Step-Counts s _ (load i k h) c = load-Counts s c i k h
    Step-Counts s _ (store i k v h) c = store-Counts s c i k v h
    Step-Counts s _ (unlock i k h) c = unlock-Counts s c i k h

-- All of them are at the end of the loop.
abbrev pub AllEnded : Counting → Type 0
AllEnded s = (i : ℕ) (p : Phase) → get_elem? s.threads i ≡ some p → p ≡ waiting 0

nothing_left :
    (ps : List Phase)
    → ((i : ℕ) (p : Phase) → get_elem? ps i ≡ some p → p ≡ waiting 0)
    → sum_of work ps ≡ 0
unfolding sum_of work
nothing_left [] h = refl
nothing_left (p ∷ ps) h =
    let ended = ap work (h 0 p refl) in
    let rest = nothing_left ps (λ i q e. h (suc i) q e) in omega arith

-- In whatever order the threads take their steps: when all of them have ended, no increment is lost, and
-- main prints 500000.
pub Reach-counter :
    (s : Counting) → Reach s → AllEnded s → s.shared_counter ≡ num_threads * increment_per_thread
Reach-counter s reached ended =
    let c = Reach-Counts s reached in omega (arith, c.counted, nothing_left s.threads ended)
