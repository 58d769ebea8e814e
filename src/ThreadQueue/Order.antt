-- ===== src/ThreadQueue/Order.antt =====
-- 16_sockets/part2/consumer_producer/server.c: what holds in every state that the server reaches.
use eltex_homeworks.Prelude.{
  ℕ, ◌+◌, ◌≤◌, ◌≡◌, refl, sym, ap, subst, ◌∙◌, true, none, some, List, [], ◌∷◌, ◌++◌, append_assoc,
  append-nil, Option, arith, length, get_elem?, is_some,
}
use eltex_homeworks.Prelude.Int.{ℤ, pos}
use eltex_homeworks.ThreadQueue.Queue.{Heap, ThreadQueue, dequeue}
use eltex_homeworks.ThreadQueue.Chain.{Cells, fds, Represents}
use eltex_homeworks.ThreadQueue.Fifo.{
  Enqueued, Dequeued, enqueue-Enqueued, dequeue-Dequeued, dequeue-Represents, pop,
}
use eltex_homeworks.ThreadQueue.Server.{
  woken, Server, Step, accept, take, refuse, post, reject, wake, serve, miss, finish, Reach,
  started, then,
}
use eltex_homeworks.ThreadQueue.Invariant.{
  total, is_woken, is_posting, times_in, times_in-snoc, in_main, in_worker, Invariant,
  boot-Invariant, accept-Invariant, take-Invariant, refuse-Invariant, post-Invariant,
  reject-Invariant, wake-Invariant, serve-Invariant, woken-cells, finish-Invariant,
}

-- A woken worker gets a client.
woken-pop :
    (s : Server) (inv : Invariant s) (i : ℕ)
    → get_elem? s.workers i ≡ some woken
    → (fd : ℤ) × ((pop (fds inv.cells)).0 ≡ some fd)
woken-pop s inv i at = pop-cons inv.cells (woken-cells s inv i at)
  where
    pop-cons : (cs : Cells) → 1 ≤ length cs → (fd : ℤ) × ((pop (fds cs)).0 ≡ some fd)
    pop-cons [] h = absurd (omega arith)
    pop-cons ((a, fd) ∷ cs) h = (fd, refl)

dequeue-woken :
    (s : Server) (inv : Invariant s) (i : ℕ)
    → get_elem? s.workers i ≡ some woken
    → (fd : ℤ) × (h : Heap) × (q : ThreadQueue) × (dequeue s.heap s.queue ≡ some (some fd, h, q))
dequeue-woken s inv i at =
    let (h, q, cs, e, _, _, _) = dequeue-Represents s.heap s.queue inv.cells inv.represents in
    let (fd, got) = woken-pop s inv i at in (fd, h, q, e ∙ ap (λ o. some (o, h, q)) got)

pub some-fresh : (h : Heap) (a b : ℕ) → h a ≡ none → some a ≡ some b → h b ≡ none
some-fresh h a b new e = cc

not_some :
    {A : Type 0} (fd : ℤ) (h : Heap) (q : ThreadQueue) (h' : Heap) (q' : ThreadQueue)
    → ◌≡◌ {A = Option (Option ℤ × Heap × ThreadQueue)} (some (none, h, q)) (some (some fd, h', q'))
    → A
not_some fd h q h' q' e = cc

Step-Invariant : {s t : Server} → Step s t → Invariant s → Invariant t
Step-Invariant {s} (accept fd at) inv = accept-Invariant s inv fd at
Step-Invariant {s} (take fd a h q at new e) inv = take-Invariant s inv fd a h q at (
    subst (Enqueued s.queue.capacity true fd (fds inv.cells)) e (
      enqueue-Enqueued (some a) fd s.heap s.queue inv.cells inv.represents
        (λ b eb. some-fresh s.heap a b new eb)))
Step-Invariant {s} (refuse fd m h q at new e) inv = refuse-Invariant s inv fd (is_some m) h q at (
    subst (Enqueued s.queue.capacity (is_some m) fd (fds inv.cells)) e
      (enqueue-Enqueued m fd s.heap s.queue inv.cells inv.represents new))
Step-Invariant {s} (post at) inv = post-Invariant s inv at
Step-Invariant {s} (reject fd at) inv = reject-Invariant s inv fd at
Step-Invariant {s} (wake i n at e) inv = wake-Invariant s inv i n at e
Step-Invariant {s} (serve i fd h q at e) inv = serve-Invariant s inv i fd h q at (
    subst (Dequeued s.queue.capacity (fds inv.cells)) e
      (dequeue-Dequeued s.heap s.queue inv.cells inv.represents))
Step-Invariant {s} (miss i h q at e) inv =
    let (fd, h', q', e') = dequeue-woken s inv i at in not_some fd h q h' q' (sym e ∙ e')
Step-Invariant {s} (finish i fd at) inv = finish-Invariant s inv i fd at

pub Reach-Invariant : {s : Server} → Reach s → Invariant s
Reach-Invariant started = boot-Invariant
Reach-Invariant (then r step) = Step-Invariant step (Reach-Invariant r)

-- In every state that the server reaches, the queue holds at most 20 clients in a well-formed list, and
-- the clients that workers took are, in order, the first of those that enqueue took; the others are in
-- the queue.
pub Reach-in_order :
    (s : Server)
    → Reach s
    → (cs : Cells) × Represents s.heap s.queue cs
      × (length cs ≤ 20)
      × (s.queued ≡ s.taken ++ fds cs)
Reach-in_order s r =
    let inv = Reach-Invariant r in (inv.cells, inv.represents, inv.bounded, inv.in_order)

-- A worker that sem_wait has let through always gets a client from dequeue: it never meets an empty
-- queue or a bad pointer.
Reach-dequeue :
    (s : Server) (i : ℕ)
    → Reach s
    → get_elem? s.workers i ≡ some woken
    → (fd : ℤ) × (h : Heap) × (q : ThreadQueue) × (dequeue s.heap s.queue ≡ some (some fd, h, q))
Reach-dequeue s i r at = dequeue-woken s (Reach-Invariant r) i at

times_in-append :
    (fd : ℤ) (xs ys : List ℤ) → times_in fd (xs ++ ys) ≡ times_in fd xs + times_in fd ys
times_in-append fd xs [] = rw (append-nil xs) (omega arith)
times_in-append fd xs (y ∷ ys) =
    ap (times_in fd) (sym (append_assoc xs (y ∷ []) ys))
    ∙ times_in-append fd (xs ++ y ∷ []) ys
    ∙ omega (arith, times_in-snoc fd xs y)

-- No client is lost or closed twice: a descriptor was accepted as often as it was rejected and closed
-- by main, is held by main, waits in the queue, is served by a worker or was closed by one.
pub Reach-none_lost :
    (s : Server) (fd : ℤ)
    → Reach s
    → (cs : Cells) × Represents s.heap s.queue cs
      × (times_in fd s.accepts
          ≡ times_in fd s.rejected
            + in_main fd s.main
            + times_in fd (fds cs)
            + total (in_worker fd) s.workers
            + times_in fd s.closed)
Reach-none_lost s fd r =
    let inv = Reach-Invariant r in
    (
      inv.cells,
      inv.represents,
      omega (
        arith,
        inv.main_has fd,
        inv.workers_have fd,
        ap (times_in fd) inv.in_order,
        times_in-append fd s.taken (fds inv.cells),
      ),
    )

-- No wakeup is lost: the size of the queue is the semaphore, plus one when main is about to post it, plus
-- the workers that are about to take a client. So while clients wait in the queue, a worker is or will be
-- let through.
pub Reach-semaphore :
    (s : Server)
    → Reach s
    → s.queue.size ≡ pos (s.semaphore + is_posting s.main + total is_woken s.workers)
Reach-semaphore s r = let inv = Reach-Invariant r in inv.represents.sized ∙ ap pos inv.balanced
