-- ===== src/ThreadQueue/Invariant.antt =====
-- 16_sockets/part2/consumer_producer/server.c: what every step of the server keeps.
use eltex_homeworks.Prelude.{
  ℕ, zero, suc, ◌+◌, ◌≤◌, ◌≡◌, refl, sym, ap, ◌∙◌, Bool, true, false, some, List, [], ◌∷◌, ◌++◌,
  append_assoc, arith, if◌then◌else◌, length, get_elem?, set,
}
use eltex_homeworks.Prelude.Int.{ℤ, pos, eqb_ℤ, leb_ℤ}
use eltex_homeworks.ThreadQueue.Queue.{Heap, ThreadQueue, success, failure, init_queue}
use eltex_homeworks.ThreadQueue.Chain.{Cells, fds, length-fds, Represents}
use eltex_homeworks.ThreadQueue.Fifo.{
  init_queue-Represents, Enqueued, Dequeued, push-success, push-failure, pop-some,
}
use eltex_homeworks.ThreadQueue.Server.{
  queue_size, Main, accepting, accepted, posting, rejecting, Worker, waiting, woken, serving,
  Server, boot,
}

-- A sum over the workers.
abbrev pub total : (Worker → ℕ) → List Worker → ℕ
total f [] = 0
total f (w ∷ ws) = f w + total f ws

total-set :
    (f : Worker → ℕ) (ws : List Worker) (i : ℕ) (v w : Worker)
    → get_elem? ws i ≡ some v
    → total f (set ws i w) + f v ≡ total f ws + f w
total-set f [] i v w e = cc
total-set f (x ∷ ws) zero v w e = ground arith
total-set f (x ∷ ws) (suc i) v w e = omega (arith, total-set f ws i v w e)

-- Workers between sem_wait and dequeue.
abbrev pub is_woken : Worker → ℕ
is_woken woken = 1
is_woken _ = 0

-- main between enqueue and sem_post
abbrev pub is_posting : Main → ℕ
is_posting posting = 1
is_posting _ = 0

-- How often a descriptor is in a list, in the hands of main or of a worker.
abbrev pub same_fd : ℤ → ℤ → ℕ
same_fd fd x = if eqb_ℤ x fd then 1 else 0

abbrev pub times_in : ℤ → List ℤ → ℕ
times_in fd [] = 0
times_in fd (x ∷ xs) = times_in fd xs + same_fd fd x

abbrev pub in_main : ℤ → Main → ℕ
in_main fd (accepted x) = same_fd fd x
in_main fd (rejecting x) = same_fd fd x
in_main fd _ = 0

abbrev pub in_worker : ℤ → Worker → ℕ
in_worker fd (serving x) = same_fd fd x
in_worker fd _ = 0

pub times_in-snoc :
    (fd : ℤ) (xs : List ℤ) (x : ℤ) → times_in fd (xs ++ x ∷ []) ≡ times_in fd xs + same_fd fd x
times_in-snoc fd [] x = refl
times_in-snoc fd (y ∷ xs) x = omega (arith, times_in-snoc fd xs x)

-- What every step keeps.
pub record Invariant (s : Server) : Type 0 where
  pub cells : Cells
  pub represents : Represents s.heap s.queue cells
  pub capacity : s.queue.capacity ≡ queue_size
  pub bounded : length cells ≤ 20
  pub in_order : s.queued ≡ s.taken ++ fds cells
  pub balanced : length cells ≡ s.semaphore + is_posting s.main + total is_woken s.workers
  pub main_has :
      (fd : ℤ)
      → times_in fd s.accepts ≡ times_in fd s.queued + times_in fd s.rejected + in_main fd s.main
  pub workers_have :
      (fd : ℤ) → times_in fd s.taken ≡ times_in fd s.closed + total (in_worker fd) s.workers

pub length-snoc : (xs : List ℤ) (x : ℤ) → length (xs ++ x ∷ []) ≡ suc (length xs)
length-snoc [] x = refl
length-snoc (y ∷ xs) x = ap suc (length-snoc xs x)

pub space : (z : ℤ) (n : ℕ) → z ≡ queue_size → leb_ℤ z (pos n) ≡ false → suc n ≤ 20
space z n e room = ground arith

pub boot-Invariant : Invariant boot
unfolding boot
boot-Invariant = record {
  cells = [];
  represents = init_queue-Represents queue_size;
  capacity = unfold init_queue in refl;
  bounded = omega arith;
  in_order = refl;
  balanced = refl;
  main_has = λ fd. refl;
  workers_have = λ fd. refl;
}

module _ (s : Server) (inv : Invariant s) where
  pub accept-Invariant :
      (fd : ℤ)
      → s.main ≡ accepting
      → Invariant (record s { main = accepted fd; accepts = s.accepts ++ fd ∷ [] })
  accept-Invariant fd at = record {
    cells = inv.cells;
    represents = inv.represents;
    capacity = inv.capacity;
    bounded = inv.bounded;
    in_order = inv.in_order;
    balanced = omega (arith, inv.balanced, ap is_posting at);
    main_has = λ x. omega (arith, inv.main_has x, times_in-snoc x s.accepts fd, ap (in_main x) at);
    workers_have = inv.workers_have;
  }

  pub take-Invariant :
      (fd : ℤ) (a : ℕ) (h : Heap) (q : ThreadQueue)
      → s.main ≡ accepted fd
      → Enqueued s.queue.capacity true fd (fds inv.cells) (some (success, h, q))
      → Invariant (record s { heap = h; queue = q; main = posting; queued = s.queued ++ fd ∷ [] })
  take-Invariant fd a h q at (cs, rep, cap, pushed) =
      let (room, more) = push-success s.queue.capacity true fd (fds inv.cells) (fds cs) pushed in
      let grows : length cs ≡ suc (length inv.cells) =
        sym (length-fds cs)
        ∙ ap length more
        ∙ length-snoc (fds inv.cells) fd
        ∙ ap suc (length-fds inv.cells) in
      record {
        cells = cs;
        represents = rep;
        capacity = cap ∙ inv.capacity;
        bounded = omega (
          arith,
          grows,
          length-fds inv.cells,
          space s.queue.capacity (length (fds inv.cells)) inv.capacity room,
        );
        in_order =
            ap (λ l. l ++ fd ∷ []) inv.in_order
            ∙ append_assoc s.taken (fds inv.cells) (fd ∷ [])
            ∙ ap (◌++◌ s.taken) (sym more);
        balanced = omega (arith, grows, inv.balanced, ap is_posting at);
        main_has =
            λ x. omega (arith, inv.main_has x, times_in-snoc x s.queued fd, ap (in_main x) at);
        workers_have = inv.workers_have;
      }

  pub refuse-Invariant :
      (fd : ℤ) (m : Bool) (h : Heap) (q : ThreadQueue)
      → s.main ≡ accepted fd
      → Enqueued s.queue.capacity m fd (fds inv.cells) (some (failure, h, q))
      → Invariant (record s { heap = h; queue = q; main = rejecting fd })
  refuse-Invariant fd m h q at (cs, rep, cap, pushed) =
      let same = push-failure s.queue.capacity m fd (fds inv.cells) (fds cs) pushed in
      let kept : length cs ≡ length inv.cells =
        sym (length-fds cs) ∙ ap length same ∙ length-fds inv.cells in
      record {
        cells = cs;
        represents = rep;
        capacity = cap ∙ inv.capacity;
        bounded = omega (arith, inv.bounded, kept);
        in_order = inv.in_order ∙ ap (◌++◌ s.taken) (sym same);
        balanced = omega (arith, kept, inv.balanced, ap is_posting at);
        main_has = λ x. omega (arith, inv.main_has x, ap (in_main x) at);
        workers_have = inv.workers_have;
      }

  pub post-Invariant :
      s.main ≡ posting → Invariant (record s { main = accepting; semaphore = s.semaphore + 1 })
  post-Invariant at = record {
    cells = inv.cells;
    represents = inv.represents;
    capacity = inv.capacity;
    bounded = inv.bounded;
    in_order = inv.in_order;
    balanced = omega (arith, inv.balanced, ap is_posting at);
    main_has = λ x. omega (arith, inv.main_has x, ap (in_main x) at);
    workers_have = inv.workers_have;
  }

  pub reject-Invariant :
      (fd : ℤ)
      → s.main ≡ rejecting fd
      → Invariant (record s { main = accepting; rejected = s.rejected ++ fd ∷ [] })
  reject-Invariant fd at = record {
    cells = inv.cells;
    represents = inv.represents;
    capacity = inv.capacity;
    bounded = inv.bounded;
    in_order = inv.in_order;
    balanced = omega (arith, inv.balanced, ap is_posting at);
    main_has = λ x. omega (arith, inv.main_has x, times_in-snoc x s.rejected fd, ap (in_main x) at);
    workers_have = inv.workers_have;
  }

  pub wake-Invariant :
      (i n : ℕ)
      → get_elem? s.workers i ≡ some waiting
      → s.semaphore ≡ suc n
      → Invariant (record s { workers = set s.workers i woken; semaphore = n })
  wake-Invariant i n at e = record {
    cells = inv.cells;
    represents = inv.represents;
    capacity = inv.capacity;
    bounded = inv.bounded;
    in_order = inv.in_order;
    balanced = omega (arith, inv.balanced, total-set is_woken s.workers i waiting woken at, e);
    main_has = inv.main_has;
    workers_have = λ x.
        omega (arith, inv.workers_have x, total-set (in_worker x) s.workers i waiting woken at);
  }

  pub serve-Invariant :
      (i : ℕ) (fd : ℤ) (h : Heap) (q : ThreadQueue)
      → get_elem? s.workers i ≡ some woken
      → Dequeued s.queue.capacity (fds inv.cells) (some (some fd, h, q))
      → Invariant (record s {
        heap = h;
        queue = q;
        workers = set s.workers i (serving fd);
        taken = s.taken ++ fd ∷ [];
      })
  serve-Invariant i fd h q at (cs, rep, cap, got, rest) =
      let all : fds inv.cells ≡ fd ∷ fds cs = pop-some fd (fds inv.cells) (fds cs) got rest in
      let shorter : length inv.cells ≡ suc (length cs) =
        sym (length-fds inv.cells) ∙ ap length all ∙ ap suc (length-fds cs) in
      record {
        cells = cs;
        represents = rep;
        capacity = cap ∙ inv.capacity;
        bounded = omega (arith, inv.bounded, shorter);
        in_order =
            inv.in_order ∙ ap (◌++◌ s.taken) all ∙ sym (append_assoc s.taken (fd ∷ []) (fds cs));
        balanced =
            omega
              (arith, inv.balanced, shorter, total-set is_woken s.workers i woken (serving fd) at);
        main_has = inv.main_has;
        workers_have = λ x. omega (
          arith,
          inv.workers_have x,
          times_in-snoc x s.taken fd,
          total-set (in_worker x) s.workers i woken (serving fd) at,
        );
      }

  -- A woken worker finds a client.
  pub woken-cells : (i : ℕ) → get_elem? s.workers i ≡ some woken → 1 ≤ length inv.cells
  woken-cells i at = omega (arith, inv.balanced, total-set is_woken s.workers i woken waiting at)

  pub finish-Invariant :
      (i : ℕ) (fd : ℤ)
      → get_elem? s.workers i ≡ some (serving fd)
      → Invariant (record s { workers = set s.workers i waiting; closed = s.closed ++ fd ∷ [] })
  finish-Invariant i fd at = record {
    cells = inv.cells;
    represents = inv.represents;
    capacity = inv.capacity;
    bounded = inv.bounded;
    in_order = inv.in_order;
    balanced = omega (arith, inv.balanced, total-set is_woken s.workers i (serving fd) waiting at);
    main_has = inv.main_has;
    workers_have = λ x. omega (
      arith,
      inv.workers_have x,
      times_in-snoc x s.closed fd,
      total-set (in_worker x) s.workers i (serving fd) waiting at,
    );
  }
