-- ===== src/ThreadPool/Server.antt =====
-- 16_sockets/part2/pthread_pool_server/server.c: main and the threads that it makes, as a step relation on
-- what they share. A thread is its pthread_t, a number from 1 on that is not used again, since no thread is
-- joined or detached; 0 is what a slot holds before its first thread.
use eltex_homeworks.Prelude.{
  ℕ, zero, suc, ◌+◌, ◌≡◌, Bool, true, false, Option, none, some, ◌==◌, if◌then◌else◌,
}
use eltex_homeworks.Prelude.Int.{ℤ}

abbrev pub max_threads : ℕ
max_threads = 5

-- What a thread does: send, sleep and close are one step, the loop that looks for its own slot another.
pub data Phase : Type 0 where
  unborn : Phase
  serving : ℤ → Phase
  closed : Phase
  ended : Phase

abbrev pub is_live : Phase → Bool
is_live unborn = false
is_live (serving fd) = true
is_live closed = true
is_live ended = false

-- Where main is: in accept; at thread_pool[i] with a client; behind pthread_create for slot i.
pub data Main : Type 0 where
  accepting : Main
  scanning : ℤ → ℕ → Main
  starting : ℕ → Main

-- thread_pool, by its two fields; the threads; and the next pthread_t.
pub record Pool : Type 0 where
  pub thread : ℕ → ℕ
  pub is_free : ℕ → Bool
  pub phase : ℕ → Phase
  pub main : Main
  pub next : ℕ

abbrev pub put {ℓ} : {A : Type ℓ} → ℕ → A → (ℕ → A) → ℕ → A
put i v f j = if j == i then v else f j

unfoldable pub boot : Pool
boot = record {
  thread = λ i. 0;
  is_free = λ i. true;
  phase = λ t. unborn;
  main = accepting;
  next = 1;
}

-- i++, and back to 0 at the end
abbrev pub following : ℕ → ℕ
following i = if i + 1 == max_threads then 0 else i + 1

-- The loop of handle_client over the slots from `i` on, with `n` to go: the first that is the thread's own.
unfoldable pub own_slot : ℕ → ℕ → ℕ → (ℕ → ℕ) → Option ℕ
own_slot zero i t thread = none
own_slot (suc n) i t thread =
    let rest = own_slot n (i + 1) t thread in if thread i == t then some i else rest

-- thread_pool[i].is_free = 1, if there is one
unfoldable pub release_slot : Option ℕ → (ℕ → Bool) → ℕ → Bool
release_slot none is_free = is_free
release_slot (some i) is_free = put i true is_free

pub data Step (s : Pool) : Pool → Type 0 where
  accept : (fd : ℤ) → s.main ≡ accepting → Step s (record s { main = scanning fd 0 })
  skip :
      (fd : ℤ) (i : ℕ)
      → s.main ≡ scanning fd i
      → s.is_free i ≡ false
      → Step s (record s { main = scanning fd (following i) })
  create :
      (fd : ℤ) (i : ℕ)
      → s.main ≡ scanning fd i
      → s.is_free i ≡ true
      → Step s (record s {
        thread = put i s.next s.thread;
        phase = put s.next (serving fd) s.phase;
        main = starting i;
        next = suc s.next;
      })
  -- The result of pthread_create is not looked at.
  create_failed :
      (fd : ℤ) (i : ℕ)
      → s.main ≡ scanning fd i
      → s.is_free i ≡ true
      → Step s (record s { main = starting i })
  mark :
      (i : ℕ)
      → s.main ≡ starting i
      → Step s (record s { is_free = put i false s.is_free; main = accepting })
  close :
      (t : ℕ) (fd : ℤ) → s.phase t ≡ serving fd → Step s (record s { phase = put t closed s.phase })
  release :
      (t : ℕ)
      → s.phase t ≡ closed
      → Step s (record s {
        is_free = release_slot (own_slot max_threads 0 t s.thread) s.is_free;
        phase = put t ended s.phase;
      })

pub data Reach (s : Pool) : Pool → Type 0 where
  here : Reach s s
  next_step : {t u : Pool} → Reach s t → Step t u → Reach s u
