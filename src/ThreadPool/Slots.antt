-- ===== src/ThreadPool/Slots.antt =====
-- 16_sockets/part2/pthread_pool_server/server.c: what holds of the slots in every state.
use eltex_homeworks.Prelude.{
  ℕ, zero, suc, ◌+◌, ◌<◌, ◌≡◌, refl, Bool, true, false, Option, none, some, ◌==◌, arith, inl, inr,
  Bool-cases,
}
use eltex_homeworks.Prelude.Int.{ℤ}
use eltex_homeworks.ThreadPool.Server.{
  max_threads, serving, closed, ended, is_live, Main, accepting, scanning, starting, Pool, put,
  boot, following, own_slot, release_slot, Step, accept, skip, create, create_failed, mark, close,
  release, Reach, here, next_step,
}

abbrev pub starts : ℕ → Main → Bool
starts i accepting = false
starts i (scanning fd j) = false
starts i (starting j) = i == j

-- The slot at which main is.
abbrev pub InPool : Main → Type 0
InPool accepting = Unit {0}
InPool (scanning fd i) = i < max_threads
InPool (starting i) = i < max_threads

-- A thread that is at work has a slot; a free slot has no thread that is at work, but for the slot that
-- main has just given away and not marked yet.
pub record IsSound (s : Pool) : Type 0 where
  pub at : InPool s.main
  pub started : (t : ℕ) → is_live (s.phase t) ≡ true → t < s.next
  pub known : (i : ℕ) → s.thread i < s.next
  pub placed : (t : ℕ) → is_live (s.phase t) ≡ true → (i : ℕ) × (i < max_threads) × (s.thread i ≡ t)
  pub exclusive :
      (i : ℕ)
      → s.is_free i ≡ true
      → starts i s.main ≡ false
      → is_live (s.phase (s.thread i)) ≡ false

pub boot-IsSound : IsSound boot
unfolding boot
boot-IsSound = record {
  at = tt;
  started = λ t h. cc;
  known = λ i. omega arith;
  placed = λ t h. cc;
  exclusive = λ i h k. refl;
}

following-lt : (i : ℕ) → i < max_threads → following i < max_threads
following-lt i h = ground arith

-- The place of a thread, when a new one has been put into slot `i`.
new_place :
    (s : Pool) (fd : ℤ) (i t : ℕ)
    → i < max_threads
    → is_live (s.phase (s.thread i)) ≡ false
    → (is_live (s.phase t) ≡ true → (j : ℕ) × (j < max_threads) × (s.thread j ≡ t))
    → is_live (put s.next (serving fd) s.phase t) ≡ true
    → (j : ℕ) × (j < max_threads) × (put i s.next s.thread j ≡ t)
new_place s fd i t lt not_live place h = elim (Bool-cases (t == s.next)) [
  | inl new ↦ (i, lt, ground arith)
  | inr old ↦ let (j, lt', at) = place (ground arith) in (j, lt', ground arith)
]

mark_free :
    (s : Pool) (i j : ℕ)
    → (s.is_free j ≡ true → starts j s.main ≡ false → is_live (s.phase (s.thread j)) ≡ false)
    → s.main ≡ starting i
    → put i false s.is_free j ≡ true
    → is_live (s.phase (s.thread j)) ≡ false
mark_free s i j old e h = old (ground arith) (rw e (ground arith))

pub own_slot-own :
    (n i t : ℕ) (thread : ℕ → ℕ) (j : ℕ) → own_slot n i t thread ≡ some j → thread j ≡ t
unfolding own_slot
own_slot-own zero i t thread j h = cc
own_slot-own (suc n) i t thread j h = ground (arith, own_slot-own n (i + 1) t thread j)

-- A slot that is free after a release, and not the thread's own, was free before.
release_free :
    (o : Option ℕ) (t : ℕ) (thread : ℕ → ℕ) (is_free : ℕ → Bool) (j : ℕ)
    → ((i : ℕ) → o ≡ some i → thread i ≡ t)
    → release_slot o is_free j ≡ true
    → (thread j == t) ≡ false
    → is_free j ≡ true
unfolding release_slot
release_free none t thread is_free j own h ne = h
release_free (some i) t thread is_free j own h ne = elim (Bool-cases (j == i)) [
  | inl same ↦ let at = own i refl in ground arith
  | inr other ↦ ground arith
]

module _ {s : Pool} (v : IsSound s) where
  accept-IsSound : (fd : ℤ) → s.main ≡ accepting → IsSound (record s { main = scanning fd 0 })
  accept-IsSound fd e = record {
    at = omega arith;
    started = v.started;
    known = v.known;
    placed = v.placed;
    exclusive = λ j h k. v.exclusive j h (rw e refl);
  }

  skip-IsSound :
      (fd : ℤ) (i : ℕ)
      → s.main ≡ scanning fd i
      → IsSound (record s { main = scanning fd (following i) })
  skip-IsSound fd i e = record {
    at = following-lt i (rw e at v.at);
    started = v.started;
    known = v.known;
    placed = v.placed;
    exclusive = λ j h k. v.exclusive j h (rw e refl);
  }

  create-IsSound :
      (fd : ℤ) (i : ℕ)
      → s.main ≡ scanning fd i
      → s.is_free i ≡ true
      → IsSound (record s {
        thread = put i s.next s.thread;
        phase = put s.next (serving fd) s.phase;
        main = starting i;
        next = suc s.next;
      })
  create-IsSound fd i e f =
      let not_live = v.exclusive i f (rw e refl) in
      record {
        at = rw e at v.at;
        started = λ t h. ground (arith, v.started t);
        known = λ j. ground (arith, v.known j);
        placed = λ t h. new_place s fd i t (rw e at v.at) not_live (v.placed t) h;
        exclusive =
            λ j h k. let other = v.exclusive j h (rw e refl) in ground (arith, v.known j, other);
      }

  create_failed-IsSound :
      (fd : ℤ) (i : ℕ) → s.main ≡ scanning fd i → IsSound (record s { main = starting i })
  create_failed-IsSound fd i e = record {
    at = rw e at v.at;
    started = v.started;
    known = v.known;
    placed = v.placed;
    exclusive = λ j h k. v.exclusive j h (rw e refl);
  }

  mark-IsSound :
      (i : ℕ)
      → s.main ≡ starting i
      → IsSound (record s { is_free = put i false s.is_free; main = accepting })
  mark-IsSound i e = record {
    at = tt;
    started = v.started;
    known = v.known;
    placed = v.placed;
    exclusive = λ j h k. mark_free s i j (λ free. v.exclusive j free) e h;
  }

  close-IsSound :
      (t : ℕ) (fd : ℤ)
      → s.phase t ≡ serving fd
      → IsSound (record s { phase = put t closed s.phase })
  close-IsSound t fd e = record {
    at = v.at;
    started = λ u h. ground (arith, v.started u);
    known = v.known;
    placed = λ u h. v.placed u (ground arith);
    exclusive = λ j h k. let old = v.exclusive j h k in ground (arith, old);
  }

  release-IsSound :
      (t : ℕ)
      → s.phase t ≡ closed
      → IsSound (record s {
        is_free = release_slot (own_slot max_threads 0 t s.thread) s.is_free;
        phase = put t ended s.phase;
      })
  release-IsSound t e = record {
    at = v.at;
    started = λ u h. ground (arith, v.started u);
    known = v.known;
    placed = λ u h. v.placed u (ground arith);
    exclusive = λ j h k. elim (Bool-cases (s.thread j == t)) [
      | inl own ↦ rw own refl
      | inr other ↦ rw other (
          v.exclusive j
            (release_free (own_slot max_threads 0 t s.thread) t s.thread s.is_free j
              (own_slot-own max_threads 0 t s.thread) h other)
            k)
    ];
  }

Step-IsSound : {s u : Pool} → Step s u → IsSound s → IsSound u
Step-IsSound (accept fd e) v = accept-IsSound v fd e
Step-IsSound (skip fd i e f) v = skip-IsSound v fd i e
Step-IsSound (create fd i e f) v = create-IsSound v fd i e f
Step-IsSound (create_failed fd i e f) v = create_failed-IsSound v fd i e
Step-IsSound (mark i e) v = mark-IsSound v i e
Step-IsSound (close t fd e) v = close-IsSound v t fd e
Step-IsSound (release t e) v = release-IsSound v t e

pub Reach-IsSound : {s u : Pool} → IsSound s → Reach s u → IsSound u
Reach-IsSound v here = v
Reach-IsSound v (next_step r st) = Step-IsSound st (Reach-IsSound v r)
