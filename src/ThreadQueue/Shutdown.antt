-- ===== src/ThreadQueue/Shutdown.antt =====
-- 16_sockets/part2/consumer_producer/server.c: signal_handler.
use eltex_homeworks.Prelude.{
  ℕ, suc, ◌+◌, ◌≤◌, ◌≡◌, refl, sym, ap, subst, ◌∙◌, Bool, true, false, none, some, List, [], ◌∷◌,
  ◌++◌, append_assoc, arith, length, is_some,
}
use eltex_homeworks.Prelude.Int.{ℤ}
use eltex_homeworks.ThreadQueue.Queue.{success, failure}
use eltex_homeworks.ThreadQueue.Chain.{Cells, fds, Represents, length-fds}
use eltex_homeworks.ThreadQueue.Fifo.{
  Enqueued, Dequeued, enqueue-Enqueued, dequeue-Dequeued, push-success, push-failure, pop,
  cleanup_queue-closes, pop-some,
}
use eltex_homeworks.ThreadQueue.Server.{
  Server, Step, accept, take, refuse, post, reject, wake, serve, miss, finish, Reach, queue_size,
  max_threads, max_nodes, Handler, arrived, posted, meanwhile, clean_up,
}
use eltex_homeworks.ThreadQueue.Invariant.{length-snoc, space}
use eltex_homeworks.ThreadQueue.Order.{Reach-Invariant, some-fresh}

-- What stays true of the queue when there are more wakeups than clients.
record Intact (s : Server) : Type 0 where
  cells : Cells
  represents : Represents s.heap s.queue cells
  capacity : s.queue.capacity ≡ queue_size
  bounded : length cells ≤ 20
  in_order : s.queued ≡ s.taken ++ fds cells

Reach-Intact : (s : Server) → Reach s → Intact s
Reach-Intact s r =
    let inv = Reach-Invariant r in
    record {
      cells = inv.cells;
      represents = inv.represents;
      capacity = inv.capacity;
      bounded = inv.bounded;
      in_order = inv.in_order;
    }

-- The queue is not touched.
same_queue :
    (s t : Server)
    → t.heap ≡ s.heap
    → t.queue ≡ s.queue
    → t.queued ≡ s.queued
    → t.taken ≡ s.taken
    → Intact s
    → Intact t
same_queue s t heap queue queued taken i = record {
  cells = i.cells;
  represents = rw (heap, queue) i.represents;
  capacity = rw queue i.capacity;
  bounded = i.bounded;
  in_order = rw (queued, taken) i.in_order;
}

module _ (s t : Server) (i : Intact s) where
  taken-Intact :
      (fd : ℤ)
      → Enqueued s.queue.capacity true fd (fds i.cells) (some (success, t.heap, t.queue))
      → t.queued ≡ s.queued ++ fd ∷ []
      → t.taken ≡ s.taken
      → Intact t
  taken-Intact fd (cs, rep, cap, pushed) queued taken =
      let (room, more) = push-success s.queue.capacity true fd (fds i.cells) (fds cs) pushed in
      let grows : length cs ≡ suc (length i.cells) =
        sym (length-fds cs)
        ∙ ap length more
        ∙ length-snoc (fds i.cells) fd
        ∙ ap suc (length-fds i.cells) in
      record {
        cells = cs;
        represents = rep;
        capacity = cap ∙ i.capacity;
        bounded = omega (
          arith,
          grows,
          length-fds i.cells,
          space s.queue.capacity (length (fds i.cells)) i.capacity room,
        );
        in_order =
            queued
            ∙ ap (λ l. l ++ fd ∷ []) i.in_order
            ∙ append_assoc s.taken (fds i.cells) (fd ∷ [])
            ∙ ap (◌++◌ s.taken) (sym more)
            ∙ ap (λ l. l ++ fds cs) (sym taken);
      }

  refused-Intact :
      (fd : ℤ) (m : Bool)
      → Enqueued s.queue.capacity m fd (fds i.cells) (some (failure, t.heap, t.queue))
      → t.queued ≡ s.queued
      → t.taken ≡ s.taken
      → Intact t
  refused-Intact fd m (cs, rep, cap, pushed) queued taken =
      let same = push-failure s.queue.capacity m fd (fds i.cells) (fds cs) pushed in
      let kept : length cs ≡ length i.cells =
        sym (length-fds cs) ∙ ap length same ∙ length-fds i.cells in
      record {
        cells = cs;
        represents = rep;
        capacity = cap ∙ i.capacity;
        bounded = omega (arith, i.bounded, kept);
        in_order =
            queued ∙ i.in_order ∙ ap (◌++◌ s.taken) (sym same) ∙ ap (λ l. l ++ fds cs) (sym taken);
      }

  served-Intact :
      (fd : ℤ)
      → Dequeued s.queue.capacity (fds i.cells) (some (some fd, t.heap, t.queue))
      → t.queued ≡ s.queued
      → t.taken ≡ s.taken ++ fd ∷ []
      → Intact t
  served-Intact fd (cs, rep, cap, got, rest) queued taken =
      let all : fds i.cells ≡ fd ∷ fds cs = pop-some fd (fds i.cells) (fds cs) got rest in
      let shorter : length i.cells ≡ suc (length cs) =
        sym (length-fds i.cells) ∙ ap length all ∙ ap suc (length-fds cs) in
      record {
        cells = cs;
        represents = rep;
        capacity = cap ∙ i.capacity;
        bounded = omega (arith, i.bounded, shorter);
        in_order =
            queued
            ∙ i.in_order
            ∙ ap (◌++◌ s.taken) all
            ∙ sym (append_assoc s.taken (fd ∷ []) (fds cs))
            ∙ ap (λ l. l ++ fds cs) (sym taken);
      }

  -- A worker that is let through by the handler finds the queue empty.
  missed-Intact :
      Dequeued s.queue.capacity (fds i.cells) (some (none, t.heap, t.queue))
      → t.queued ≡ s.queued
      → t.taken ≡ s.taken
      → Intact t
  missed-Intact (cs, rep, cap, got, rest) queued taken =
      let same : fds cs ≡ fds i.cells = rest ∙ unchanged (fds i.cells) got in
      let kept : length cs ≡ length i.cells =
        sym (length-fds cs) ∙ ap length same ∙ length-fds i.cells in
      record {
        cells = cs;
        represents = rep;
        capacity = cap ∙ i.capacity;
        bounded = omega (arith, i.bounded, kept);
        in_order =
            queued ∙ i.in_order ∙ ap (◌++◌ s.taken) (sym same) ∙ ap (λ l. l ++ fds cs) (sym taken);
      }
    where
      unchanged : (xs : List ℤ) → none ≡ (pop xs).0 → (pop xs).1 ≡ xs
      unchanged [] e = refl
      unchanged (x ∷ xs) e = cc

Step-Intact : {s t : Server} → Step s t → Intact s → Intact t
Step-Intact {s} {t} (accept fd at) i = same_queue s t refl refl refl refl i
Step-Intact {s} {t} (take fd a h q at new e) i =
    taken-Intact s t i fd
      (subst (Enqueued s.queue.capacity true fd (fds i.cells)) e (
        enqueue-Enqueued (some a) fd s.heap s.queue i.cells i.represents
          (λ b eb. some-fresh s.heap a b new eb)))
      refl refl
Step-Intact {s} {t} (refuse fd m h q at new e) i =
    refused-Intact s t i fd (is_some m)
      (subst (Enqueued s.queue.capacity (is_some m) fd (fds i.cells)) e
        (enqueue-Enqueued m fd s.heap s.queue i.cells i.represents new))
      refl refl
Step-Intact {s} {t} (post at) i = same_queue s t refl refl refl refl i
Step-Intact {s} {t} (reject fd at) i = same_queue s t refl refl refl refl i
Step-Intact {s} {t} (wake j n at e) i = same_queue s t refl refl refl refl i
Step-Intact {s} {t} (serve j fd h q at e) i =
    served-Intact s t i fd
      (subst (Dequeued s.queue.capacity (fds i.cells)) e
        (dequeue-Dequeued s.heap s.queue i.cells i.represents))
      refl refl
Step-Intact {s} {t} (miss j h q at e) i =
    missed-Intact s t i
      (subst (Dequeued s.queue.capacity (fds i.cells)) e
        (dequeue-Dequeued s.heap s.queue i.cells i.represents))
      refl refl
Step-Intact {s} {t} (finish j fd at) i = same_queue s t refl refl refl refl i

Handler-Intact : (s t : Server) (n : ℕ) → Handler s n t → Intact s → Intact t
Handler-Intact s _ _ arrived i = i
Handler-Intact s _ _ (posted {n} {t} so_far) i =
    same_queue t (record t { semaphore = t.semaphore + 1 }) refl refl refl refl
      (Handler-Intact s t n so_far i)
Handler-Intact s _ _ (meanwhile {n} {t = t} so_far step) i =
    Step-Intact step (Handler-Intact s t n so_far i)

-- SIGINT arrives in a state that the server reaches, and does not interrupt a thread that holds the mutex
-- of the queue; while signal_handler makes its five sem_posts and waits for the mutex, the other threads
-- make any steps. Then cleanup_queue comes to an end, closes exactly the clients that enqueue has taken
-- and no worker has taken by then, in order, and frees every node.
pub Reach-signal_handler :
    (s t : Server)
    → Reach s
    → Handler s max_threads t
    → (waiting_fds : List ℤ) × (u : Server) × (clean_up max_nodes false t ≡ some (waiting_fds, u))
      × (t.queued ≡ t.taken ++ waiting_fds)
      × ((b : ℕ) → u.heap b ≡ none)
unfolding clean_up
Reach-signal_handler s t r handling =
    let i = Handler-Intact s t max_threads handling (Reach-Intact s r) in
    let (h, q, e, _, clean) =
      cleanup_queue-closes max_nodes t.heap t.queue i.cells i.represents i.bounded in
    (fds i.cells, record t { heap = h; queue = q }, rw (e, clean_up) refl, i.in_order, clean)
