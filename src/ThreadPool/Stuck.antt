-- ===== src/ThreadPool/Stuck.antt =====
-- 16_sockets/part2/pthread_pool_server/server.c: slots that are marked after their thread has ended.
use eltex_homeworks.Prelude.{
  ℕ, ◌<◌, ◌≡◌, refl, ◌∙◌, Bool, true, false, Option, none, some, ◌==◌, arith, inl, inr, Bool-cases,
}
use eltex_homeworks.Prelude.Int.{ℤ}
use eltex_homeworks.ThreadPool.Server.{
  max_threads, is_live, accepting, scanning, starting, serving, Pool, put, boot, own_slot,
  release_slot, Step, accept, skip, create, create_failed, mark, close, release, Reach, here,
  next_step,
}
use eltex_homeworks.ThreadPool.Slots.{
  starts, InPool, IsSound, boot-IsSound, Reach-IsSound, own_slot-own,
}

-- A slot that is marked as busy though no thread is at work in it and main has not just given it away.
pub record IsLost (i : ℕ) (s : Pool) : Type 0 where
  pub busy : s.is_free i ≡ false
  pub idle : is_live (s.phase (s.thread i)) ≡ false
  pub settled : starts i s.main ≡ false

release_busy :
    (o : Option ℕ) (t : ℕ) (thread : ℕ → ℕ) (is_free : ℕ → Bool) (i : ℕ)
    → ((j : ℕ) → o ≡ some j → thread j ≡ t)
    → (thread i == t) ≡ false
    → is_free i ≡ false
    → release_slot o is_free i ≡ false
unfolding release_slot
release_busy none t thread is_free i own ne h = h
release_busy (some j) t thread is_free i own ne h = elim (Bool-cases (i == j)) [
  | inl same ↦ let at = own j refl in ground arith
  | inr other ↦ ground arith
]

free_other :
    (i j : ℕ) (is_free : ℕ → Bool) → is_free j ≡ true → is_free i ≡ false → (i == j) ≡ false
free_other i j is_free f b = elim (Bool-cases (i == j)) [
  | inl same ↦ ground (arith, f, b)
  | inr other ↦ other
]

module _ (i : ℕ) where
  Step-IsLost : {s u : Pool} → IsSound s → Step s u → IsLost i s → IsLost i u
  Step-IsLost v (accept fd e) l = record { busy = l.busy; idle = l.idle; settled = refl }
  Step-IsLost v (skip fd j e f) l = record { busy = l.busy; idle = l.idle; settled = refl }
  Step-IsLost {s} v (create fd j e f) l =
      let ne = free_other i j s.is_free f l.busy in
      record { busy = l.busy; idle = ground (arith, v.known i, l.idle); settled = ne }
  Step-IsLost {s} v (create_failed fd j e f) l = record {
    busy = l.busy;
    idle = l.idle;
    settled = free_other i j s.is_free f l.busy;
  }
  Step-IsLost v (mark j e) l = record {
    busy = ground (arith, l.busy);
    idle = l.idle;
    settled = refl;
  }
  Step-IsLost v (close t fd e) l = record {
    busy = l.busy;
    idle = ground (arith, l.idle);
    settled = l.settled;
  }
  Step-IsLost {s} v (release t e) l = record {
    busy =
        release_busy (own_slot max_threads 0 t s.thread) t s.thread s.is_free i
          (own_slot-own max_threads 0 t s.thread) (ground (arith, l.idle)) l.busy;
    idle = ground (arith, l.idle);
    settled = l.settled;
  }

IsSound-IsLost : {s u : Pool} (i : ℕ) → IsSound s → IsLost i s → Reach s u → IsLost i u
IsSound-IsLost i v l here = l
IsSound-IsLost i v l (next_step r st) =
    Step-IsLost i (Reach-IsSound v r) st (IsSound-IsLost i v l r)

-- A slot that is lost stays lost: main never gives it to a client any more.
pub Reach-IsLost : {s u : Pool} (i : ℕ) → Reach boot s → IsLost i s → Reach s u → IsLost i u
Reach-IsLost i from l r = IsSound-IsLost i (Reach-IsSound boot-IsSound from) l r

-- If the thread of a slot ends before main marks the slot, the slot is lost.
pub mark-IsLost :
    (s : Pool) (i : ℕ)
    → s.main ≡ starting i
    → is_live (s.phase (s.thread i)) ≡ false
    → IsLost i (record s { is_free = put i false s.is_free; main = accepting })
mark-IsLost s i e idle = record { busy = ground arith; idle = idle; settled = refl }

abbrev AllLost : Pool → Type 0
AllLost s = (i : ℕ) → i < max_threads → IsLost i s

no_free :
    (s : Pool) (fd : ℤ) (i : ℕ)
    → InPool s.main
    → AllLost s
    → s.main ≡ scanning fd i
    → s.is_free i ≡ true
    → ⊥
no_free s fd i at lost e f = let l = lost i (rw e at at) in cc (l.busy, f)

Step-stuck :
    {s u : Pool}
    → InPool s.main
    → AllLost s
    → Step s u
    → (u.next ≡ s.next) × ((t : ℕ) (fd : ℤ) → u.phase t ≡ serving fd → s.phase t ≡ serving fd)
Step-stuck at lost (accept fd e) = (refl, λ t fd h. h)
Step-stuck at lost (skip fd i e f) = (refl, λ t fd h. h)
Step-stuck {s} at lost (create fd i e f) = absurd (no_free s fd i at lost e f)
Step-stuck at lost (create_failed fd i e f) = (refl, λ t fd h. h)
Step-stuck at lost (mark i e) = (refl, λ t fd h. h)
Step-stuck at lost (close t fd e) = (refl, λ u fd' h. ground arith)
Step-stuck at lost (release t e) = (refl, λ u fd' h. ground arith)

-- When all five slots are lost, main goes round them for ever: whatever happens later, no thread is made
-- any more, and only the clients that were being served then are being served.
pub Reach-stuck :
    {s u : Pool}
    → Reach boot s
    → ((i : ℕ) → i < max_threads → IsLost i s)
    → Reach s u
    → (u.next ≡ s.next) × ((t : ℕ) (fd : ℤ) → u.phase t ≡ serving fd → s.phase t ≡ serving fd)
Reach-stuck from lost here = (refl, λ t fd h. h)
Reach-stuck from lost (next_step r st) =
    let v = Reach-IsSound boot-IsSound from in
    let (same, kept) = Reach-stuck from lost r in
    let (same', kept') =
      Step-stuck (Reach-IsSound v r).at (λ i lt. IsSound-IsLost i v (lost i lt) r) st in
    (same' ∙ same, λ t fd h. kept t fd (kept' t fd h))
