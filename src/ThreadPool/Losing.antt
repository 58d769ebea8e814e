-- ===== src/ThreadPool/Losing.antt =====
-- 16_sockets/part2/pthread_pool_server/server.c: a run in which every slot gets lost.
use eltex_homeworks.Prelude.{
  ℕ, zero, suc, ◌≤◌, ◌<◌, ◌≡◌, refl, subst, Bool, true, false, Option, none, some, ◌==◌, arith, inl,
  inr, Bool-cases, ==_iff,
}
use eltex_homeworks.Prelude.Int.{ℤ, pos}
use eltex_homeworks.ThreadPool.Server.{
  max_threads, is_live, accepting, scanning, starting, serving, closed, ended, Pool, put, boot,
  own_slot, release_slot, following, Step, accept, skip, create, mark, close, release, Reach, here,
  next_step,
}
use eltex_homeworks.ThreadPool.Stuck.{IsLost, Reach-IsLost, mark-IsLost}

-- main is in accept, the slots below `k` are lost and the others are free.
pub record Lost (k : ℕ) : Type 0 where
  pub pool : Pool
  pub from_boot : Reach boot pool
  pub main_accepts : pool.main ≡ accepting
  pub lost : (i : ℕ) → i < k → IsLost i pool
  pub free : (i : ℕ) → k ≤ i → pool.is_free i ≡ true

next_slot : (j : ℕ) → suc j < max_threads → following j ≡ suc j
next_slot j h = ground arith

append : {s t u : Pool} → Reach s t → Reach t u → Reach s u
append r here = r
append r (next_step q st) = next_step (append r q) st

scan :
    {s : Pool} (fd : ℤ) (k : ℕ)
    → s.main ≡ accepting
    → ((i : ℕ) → i < k → s.is_free i ≡ false)
    → (j : ℕ) → j ≤ k
    → k < max_threads
    → Reach s (record s { main = scanning fd j })
scan fd k e busy zero le lt = next_step here (accept fd e)
scan {s} fd k e busy (suc j) le lt = next_step (scan fd k e busy j (omega arith) lt) (
    subst (λ m. Step (record s { main = scanning fd j }) (record s { main = scanning fd m }))
      (next_slot j (omega arith)) (skip fd j refl (busy j (omega arith))))

still_free :
    (o : Option ℕ) (is_free : ℕ → Bool) (j : ℕ) → is_free j ≡ true → release_slot o is_free j ≡ true
unfolding release_slot
still_free none is_free j h = h
still_free (some i) is_free j h = ground (arith, h)

-- A client that is served in slot `k` before main marks it.
served_early : ℤ → ℕ → Pool → Pool
served_early fd k s =
    let thread = put k s.next s.thread in
    record {
      thread = thread;
      is_free = release_slot (own_slot max_threads 0 s.next thread) s.is_free;
      phase = put s.next ended (put s.next closed (put s.next (serving fd) s.phase));
      main = starting k;
      next = suc s.next;
    }

served_early-Reach :
    (s : Pool) (fd : ℤ) (k : ℕ)
    → s.is_free k ≡ true
    → Reach (record s { main = scanning fd k }) (served_early fd k s)
unfolding served_early
served_early-Reach s fd k f =
    next_step (next_step (next_step here (create fd k refl f)) (close s.next fd (ground arith)))
      (release s.next (ground arith))

served_early-idle :
    (s : Pool) (fd : ℤ) (k : ℕ)
    → is_live ((served_early fd k s).phase ((served_early fd k s).thread k)) ≡ false
unfolding served_early
served_early-idle s fd k = ground arith

served_early-main : (s : Pool) (fd : ℤ) (k : ℕ) → (served_early fd k s).main ≡ starting k
unfolding served_early
served_early-main s fd k = refl

served_early-free :
    (s : Pool) (fd : ℤ) (k i : ℕ)
    → suc k ≤ i
    → s.is_free i ≡ true
    → put k false (served_early fd k s).is_free i ≡ true
unfolding served_early
served_early-free s fd k i h f =
    let still = still_free (own_slot max_threads 0 s.next (put k s.next s.thread)) s.is_free i f in
    ground (arith, still)

-- One more slot gets lost.
lose : (fd : ℤ) (k : ℕ) → k < max_threads → Lost k → Lost (suc k)
lose fd k lt l =
    let s = l.pool in
    let t = served_early fd k s in
    let to_t : Reach s t =
      append (scan fd k l.main_accepts (λ i h. (l.lost i h).busy) k (omega arith) lt)
        (served_early-Reach s fd k (l.free k (omega arith))) in
    let marked = mark k (served_early-main s fd k) in
    record {
      pool = record t { is_free = put k false t.is_free; main = accepting };
      from_boot = next_step (append l.from_boot to_t) marked;
      main_accepts = refl;
      lost = λ i h. elim (Bool-cases (i == k)) [
        | inl last ↦
            subst (λ m. IsLost m (record t { is_free = put k false t.is_free; main = accepting }))
              ((==_iff k i).0 (ground arith))
              (mark-IsLost t k (served_early-main s fd k) (served_early-idle s fd k))
        | inr before ↦ Reach-IsLost i l.from_boot (l.lost i (ground arith)) (next_step to_t marked)
      ];
      free = λ i h. served_early-free s fd k i h (l.free i (omega arith));
    }

pub all_lost : Lost max_threads
all_lost = lose (pos 8) 4 (omega arith) (
    lose (pos 7) 3 (omega arith) (
      lose (pos 6) 2 (omega arith) (
        lose (pos 5) 1 (omega arith) (
          lose (pos 4) 0 (omega arith) (record {
            pool = boot;
            from_boot = here;
            main_accepts = unfold boot in refl;
            lost = λ i h. absurd (omega arith);
            free = λ i h. unfold boot in refl;
          })))))
