-- ===== src/Counter/Threads.antt =====
-- 11_threads/p3.c: increment_counter, by single steps of its threads. shared_counter++ is a load and a
-- store. The counter stays far below 2^31. A thread that is not created yet is one that has not moved.
use eltex_homeworks.Prelude.{
  ℕ, suc, ◌+◌, ◌≡◌, Bool, true, false, some, List, get_elem?, set, replicate,
}

abbrev pub num_threads : ℕ
num_threads = 5

abbrev pub increment_per_thread : ℕ
increment_per_thread = 100000

-- Where a thread is, with the rounds that its loop has left behind this one: in front of the lock (or at
-- the end of the loop), behind it, between load and store, and in front of the unlock.
pub data Phase : Type 0 where
  waiting : ℕ → Phase
  locked : ℕ → Phase
  loaded : ℕ → ℕ → Phase
  stored : ℕ → Phase

pub record Counting : Type 0 where
  pub threads : List Phase
  pub mutex : Bool
  pub shared_counter : ℕ

unfoldable pub boot : Counting
boot = record {
  threads = replicate num_threads (waiting increment_per_thread);
  mutex = false;
  shared_counter = 0;
}

-- A step of thread `i`.
pub data Step : Counting → Counting → Type 0 where
  lock :
      {s : Counting} (i k : ℕ)
      → get_elem? s.threads i ≡ some (waiting (suc k))
      → s.mutex ≡ false
      → Step s (record s { threads = set s.threads i (locked k); mutex = true })
  load :
      {s : Counting} (i k : ℕ)
      → get_elem? s.threads i ≡ some (locked k)
      → Step s (record s { threads = set s.threads i (loaded k s.shared_counter) })
  store :
      {s : Counting} (i k v : ℕ)
      → get_elem? s.threads i ≡ some (loaded k v)
      → Step s (record s { threads = set s.threads i (stored k); shared_counter = v + 1 })
  unlock :
      {s : Counting} (i k : ℕ)
      → get_elem? s.threads i ≡ some (stored k)
      → Step s (record s { threads = set s.threads i (waiting k); mutex = false })

pub data Reach : Counting → Type 0 where
  started : Reach boot
  next : {s t : Counting} → Reach s → Step s t → Reach t
